-- ===== src/Server/Admission.antt =====
-- Whom a server lets in that was made with a file of keys.
use wish.Base.{Bytes, List, [], ◌∷◌, ◌++◌, Bool, true, some, ◌≡◌, ◌↔◌, refl, ap, ◌∙◌, sym, subst}
use wish.Authorized.{Reads, authorized_keys, trusted_user_ca_keys}
use wish.Authorized.Listed.{Admitted, is_authorized_iff, trusted_user_ca_keys-Listed}
use wish.Server.{
  Server, Outcome, fine, ServerOption, Host, Stat, stat_found, stat_not_exist, stat_failed,
  new_server, if_stat, with_public_key_auth, with_authorized_keys, with_trusted_user_ca_keys,
}
use wish.Server.Kept.{SetsSigners, IfFine, new_server-IfFine}

abbrev pub KeyHandler : Type 0 → Type 0 → Type 0
KeyHandler D K = (user : Bytes) → K → D → Bool

module _ {S D K C : Type 0} (host : Host S D K C) where
  -- What the package ssh promises: `PublicKeyAuth` sets the handler and does not fail, and `HostKeyPEM` sets nothing
  -- but signers.
  pub record SshLaws : Type 0 where
    pub sets :
        (h : KeyHandler D K) (s : Server S D K) (d : D)
        → host.public_key_auth h s d ≡ fine (record s { public_key_handler = some h }) d
    pub keeps : SetsSigners host

  -- A server that was returned, with the handler of keys.
  abbrev pub HandledBy : KeyHandler D K → Outcome (Server S D K) D → Type 0
  HandledBy h = IfFine host (λ s. s.public_key_handler ≡ some h)

  -- The option sets the handler, or fails.
  abbrev pub Sets : ServerOption S D K → KeyHandler D K → Type 0
  Sets o h = (s : Server S D K) (d : D) → HandledBy h (o s d)

  module _ (laws : SshLaws) where
    if_stat-Sets :
        (x : Stat) (h : KeyHandler D K) (s : Server S D K) (d : D)
        → HandledBy h (if_stat host x (with_public_key_auth host h) s d)
    unfolding with_public_key_auth
    if_stat-Sets stat_found h s d = subst (HandledBy h) (sym (laws.sets h s d)) refl
    if_stat-Sets stat_not_exist h s d = tt
    if_stat-Sets (stat_failed e) h s d = tt

    -- Where the last option sets the handler, the server that is returned has it.
    last-HandledBy :
        (os : List (ServerOption S D K)) (o : ServerOption S D K) (h : KeyHandler D K) (d : D)
        → Sets o h
        → HandledBy h (new_server host (os ++ o ∷ []) d)
    last-HandledBy os o h d k =
        new_server-IfFine host laws.keeps (λ s. s.public_key_handler ≡ some h) (λ s ks m. m) os o d
          k

  -- The server has a handler of keys, which accepts this key.
  abbrev pub LetsIn : Server S D K → Bytes → K → D → Type 0
  LetsIn s user key e =
      (h : KeyHandler D K) × (s.public_key_handler ≡ some h) × (h user key e ≡ true)

  LetsIn-by :
      (s : Server S D K) (h : KeyHandler D K) (user : Bytes) (key : K) (e : D)
      → s.public_key_handler ≡ some h
      → LetsIn s user key e
      → h user key e ≡ true
  LetsIn-by s h user key e p (g, q, a) =
      let same : some h ≡ some g = sym p ∙ q in
      let f : h ≡ g = cc same in ap (λ k. k user key e) f ∙ a

  module _ (laws : SshLaws) (os : List (ServerOption S D K)) (path : Bytes) (s : Server S D K)
      (d d' : D) where
    keys_handler :
        new_server host (os ++ with_authorized_keys host path ∷ []) d ≡ fine s d'
        → s.public_key_handler
          ≡ some (λ user key e. authorized_keys host.ssh (host.read_file path e) key)
    unfolding with_authorized_keys
    keys_handler f =
        subst (HandledBy (λ user key e. authorized_keys host.ssh (host.read_file path e) key)) f (
          last-HandledBy laws os (with_authorized_keys host path) _ d
            (λ t e. if_stat-Sets laws (host.stat path e) _ t e))

    ca_keys_handler :
        new_server host (os ++ with_trusted_user_ca_keys host path ∷ []) d ≡ fine s d'
        → s.public_key_handler
          ≡ some (λ user key e. trusted_user_ca_keys host.ssh (host.read_file path e) user key)
    unfolding with_trusted_user_ca_keys
    ca_keys_handler f =
        subst
          (HandledBy (λ user key e. trusted_user_ca_keys host.ssh (host.read_file path e) user key))
          f
          (last-HandledBy laws os (with_trusted_user_ca_keys host path) _ d
            (λ t e. if_stat-Sets laws (host.stat path e) _ t e))

    -- A server that `NewServer` returns with `WithAuthorizedKeys` as the last option lets a key in exactly if, in
    -- the file as it is when the key is offered, a line has that key and every line before it is blank, a
    -- comment, or another key; for whatever user. The file can be opened then, and the options of the package ssh
    -- set what they are named for. So a line that cannot be parsed shuts out the keys behind it.
    pub new_server-Admitted :
        (user : Bytes) (key : K) (e : D) (r : Reads)
        → new_server host (os ++ with_authorized_keys host path ∷ []) d ≡ fine s d'
        → host.read_file path e ≡ some r
        → LetsIn s user key e ↔ Admitted host.ssh.parse (λ k. host.ssh.keys_equal key k) r.lines
    unfolding authorized_keys
    new_server-Admitted user key e r f g =
        let h = keys_handler f in
        let (to, from) = is_authorized_iff host.ssh.parse (λ k. host.ssh.keys_equal key k) r in
        (
          (λ l. to (
              rw g at (
                LetsIn-by s (λ u k x. authorized_keys host.ssh (host.read_file path x) k) user key e
                  h l))),
          (λ a. ((λ u k x. authorized_keys host.ssh (host.read_file path x) k), h, rw g (from a))),
        )

    -- A server that `NewServer` returns with `WithTrustedUserCAKeys` as the last option lets a key in only if
    -- it is a certificate that passes the check for the name of the user, and its signature key is one that a
    -- line lists of the file as it is when the key is offered. The file can be opened then, and the options of the
    -- package ssh set what they are named for.
    pub new_server-Listed :
        (user : Bytes) (key : K) (e : D) (r : Reads)
        → new_server host (os ++ with_trusted_user_ca_keys host path ∷ []) d ≡ fine s d'
        → host.read_file path e ≡ some r
        → LetsIn s user key e
        → (cert : C) × (l : Bytes) × (k : K) × (host.ssh.as_certificate key ≡ some cert)
          × (host.ssh.check_cert user cert ≡ true)
          × ((before : List Bytes) × (after : List Bytes) × (r.lines ≡ before ++ l ∷ after))
          × (host.ssh.parse l ≡ some k)
          × (host.ssh.marshal (host.ssh.signature_key cert) ≡ host.ssh.marshal k)
    new_server-Listed user key e r f g l = trusted_user_ca_keys-Listed host.ssh r user key (
        rw g at (
          LetsIn-by s (λ u k x. trusted_user_ca_keys host.ssh (host.read_file path x) u k) user key
            e (ca_keys_handler f) l))
