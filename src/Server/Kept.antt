-- ===== src/Server/Kept.antt =====
-- What a server still has after `NewServer` has seen to its host keys, and what the last option leaves.
use wish.Base.{Bytes, codes, List, [], ◌∷◌, ◌++◌, ◌≡◌, refl, sym, subst}
use wish.Server.{
  Server, empty_server, Outcome, fine, failed, ServerOption, Host, and_then, apply_options,
  with_some_key, new_server,
}
use wish.Server.HostKeys.{apply_options-append}

module _ {S D K C : Type 0} (host : Host S D K C) where
  -- `HostKeyPEM` sets nothing but signers.
  abbrev pub SetsSigners : Type 0
  SetsSigners =
      (pem : Bytes) (s s' : Server S D K) (d d' : D)
      → host.host_key_pem pem s d ≡ fine s' d'
      → s' ≡ record s { host_signers = s'.host_signers }

  abbrev pub IfFine : (Server S D K → Type 0) → Outcome (Server S D K) D → Type 0
  IfFine P (fine s d) = P s
  IfFine P (failed e d) = Unit

  module _ (sets : SetsSigners) (P : Server S D K → Type 0)
      (kept : (s : Server S D K) (ks : List K) → P s → P (record s { host_signers = ks })) where
    pub with_some_key-IfFine :
        (ks : List K) (s : Server S D K) (d : D) → P s → IfFine P (with_some_key host ks s d)
    with_some_key-IfFine (x ∷ xs) s d m = m
    with_some_key-IfFine [] s d m = made (host.keygen_new (codes "id_ed25519") d)
      where
        signed :
            (pem : Bytes) (e : D) (x : Outcome (Server S D K) D)
            → host.host_key_pem pem s e ≡ x
            → IfFine P x
        signed pem e (fine t e') f = subst P (sym (sets pem s t e e' f)) (kept s t.host_signers m)
        signed pem e (failed x e') f = tt

        made : (x : Outcome Bytes D) → IfFine P (and_then (λ pem e. host.host_key_pem pem s e) x)
        made (fine pem e) = signed pem e (host.host_key_pem pem s e) refl
        made (failed x e) = tt

    -- What the last option makes of any server, a server that is returned has.
    pub new_server-IfFine :
        (os : List (ServerOption S D K)) (o : ServerOption S D K) (d : D)
        → ((s : Server S D K) (e : D) → IfFine P (o s e))
        → IfFine P (new_server host (os ++ o ∷ []) d)
    unfolding new_server apply_options
    new_server-IfFine os o d k =
        subst (λ x. IfFine P (and_then (λ s e. with_some_key host s.host_signers s e) x))
          (sym (apply_options-append host os (o ∷ []) empty_server d))
          (begun (apply_options os empty_server d))
      where
        ended :
            (x : Outcome (Server S D K) D)
            → IfFine P x
            → IfFine P (
                and_then
                  (λ s e. with_some_key host s.host_signers s e)
                  (and_then (apply_options []) x))
        ended (fine s e) p = with_some_key-IfFine s.host_signers s e p
        ended (failed x e) p = tt

        begun :
            (x : Outcome (Server S D K) D)
            → IfFine P (
                and_then
                  (λ s e. with_some_key host s.host_signers s e)
                  (and_then (apply_options (o ∷ [])) x))
        begun (fine s e) = ended (o s e) (k s e)
        begun (failed x e) = tt
