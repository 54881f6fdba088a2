-- ===== src/Server/HostKeys.antt =====
-- What a server that `NewServer` returns has, and which errors it returns.
use wish.Base.{Bytes, List, [], ◌∷◌, ◌++◌, ◌≡◌, ◌≢◌, refl, ◌∙◌, codes}
use wish.Server.{
  Server, empty_server, Outcome, fine, failed, ServerOption, Host, and_then, apply_options,
  with_some_key, new_server,
}

-- A server with a list of signers that is not empty.
abbrev pub HasKey : {S D K : Type 0} → Outcome (Server S D K) D → Type 0
HasKey (fine s d) = s.host_signers ≢ []
HasKey (failed e d) = Unit

module _ {S D K C : Type 0} (host : Host S D K C) where
  -- A key that is set is there.
  abbrev pub SetsKey : Type 0
  SetsKey = (pem : Bytes) (s : Server S D K) (d : D) → HasKey (host.host_key_pem pem s d)

  and_then-append :
      (ps : List (ServerOption S D K)) (os : List (ServerOption S D K))
      (x : Outcome (Server S D K) D)
      → and_then (λ s d. and_then (apply_options ps) (apply_options os s d)) x
        ≡ and_then (apply_options ps) (and_then (apply_options os) x)
  and_then-append ps os (fine s d) = refl
  and_then-append ps os (failed e d) = refl

  pub apply_options-append :
      (os ps : List (ServerOption S D K)) (s : Server S D K) (d : D)
      → apply_options (os ++ ps) s d ≡ and_then (apply_options ps) (apply_options os s d)
  unfolding apply_options
  apply_options-append [] ps s d = refl
  apply_options-append (o ∷ os) ps s d =
      (λ i. and_then (λ t e. apply_options-append os ps t e i) (o s d))
      ∙ and_then-append ps os (o s d)

  -- The first option that fails decides: `NewServer` returns its error, and no later option runs and no
  -- key is made.
  pub new_server_failed :
      (os : List (ServerOption S D K)) (o : ServerOption S D K) (ps : List (ServerOption S D K))
      (s : Server S D K) (d d1 d2 : D) (e : Bytes)
      → apply_options os empty_server d ≡ fine s d1
      → o s d1 ≡ failed e d2
      → new_server host (os ++ o ∷ ps) d ≡ failed e d2
  unfolding new_server apply_options
  new_server_failed os o ps s d d1 d2 e p q =
      rw (apply_options-append os (o ∷ ps) empty_server d, p, q) refl

  with_some_key-HasKey :
      (sets : SetsKey) (ks : List K) (s : Server S D K) (d : D)
      → s.host_signers ≡ ks
      → HasKey (with_some_key host ks s d)
  with_some_key-HasKey sets (k ∷ ks) s d e = λ n. cc (e, n)
  with_some_key-HasKey sets [] s d e = made (host.keygen_new (codes "id_ed25519") d)
    where
      made : (x : Outcome Bytes D) → HasKey (and_then (λ pem e. host.host_key_pem pem s e) x)
      made (fine pem d') = sets pem s d'
      made (failed x d') = tt

  -- A server that `NewServer` returns has a host key, whatever the options are, if a key that is set
  -- from its text is there.
  pub new_server-HasKey :
      (ops : List (ServerOption S D K)) (d : D) → SetsKey → HasKey (new_server host ops d)
  unfolding new_server
  new_server-HasKey ops d sets = keyed (apply_options ops empty_server d)
    where
      keyed :
          (x : Outcome (Server S D K) D)
          → HasKey (and_then (λ s e. with_some_key host s.host_signers s e) x)
      keyed (fine s e) = with_some_key-HasKey sets s.host_signers s e refl
      keyed (failed x e) = tt
