-- ===== src/Examples/Auth/Methods.antt =====
-- Whom the server of the example lets in, and what it does then.
use wish.Base.{
  Bytes, codes, List, [], ◌∷◌, ◌++◌, Bool, true, false, Option, none, some, ◌≡◌, ◌↔◌, refl, ap,
  subst, append_assoc,
}
use std.Logic.{↔_trans}
use wish.Session.{Session, World, stdout, println, Handler, Middleware}
use wish.Middleware.{Logger, logging, with_middleware}
use wish.Server.{
  Server, empty_server, Outcome, fine, failed, Host, and_then, apply_options, with_some_key,
  new_server, with_address, with_host_key_path, with_public_key_auth, with_password_auth,
  with_keyboard_interactive_auth, with_middleware_option,
}
use wish.Server.Kept.{SetsSigners, IfFine, with_some_key-IfFine}
use wish.Server.Admission.{LetsIn}
use wish.Examples.Auth.Checks.{
  Has, has_key_iff, is_password_iff, answers_right_iff, Accepts, Accepts_iff,
}
use wish.Examples.Auth.{
  Users, valid_password, has_key, is_password, Challenger, questions, answers_right, greet, options,
  multi_auth_server,
}

module _ {S D K C : Type 0} (host : Host S D K C) where
  -- What the package ssh promises: the three options set the handlers and do not fail, and `HostKeyPEM` sets
  -- nothing but signers.
  pub record MethodLaws : Type 0 where
    pub sets_key :
        (h : Bytes → K → D → Bool) (s : Server S D K) (d : D)
        → host.public_key_auth h s d ≡ fine (record s { public_key_handler = some h }) d
    pub sets_password :
        (h : Bytes → Bytes → Bool) (s : Server S D K) (d : D)
        → host.password_auth h s d ≡ fine (record s { password_handler = some h }) d
    pub sets_keyboard :
        (h : Bytes → Bool) (s : Server S D K) (d : D)
        → host.keyboard_interactive_auth h s d ≡ fine (record s { keyboard_handler = some h }) d
    pub keeps : SetsSigners host

  -- The server with the three ways in and the handler.
  abbrev pub HasMethods :
      (Bytes → K → D → Bool)
      → (Bytes → Bytes → Bool)
      → (Bytes → Bool)
      → Handler S
      → Server S D K
      → Type 0
  HasMethods k p q h s =
      (s.public_key_handler ≡ some k)
      × (s.password_handler ≡ some p)
      × (s.keyboard_handler ≡ some q)
      × (s.handler ≡ some h)

  module _ (laws : MethodLaws) (k : Bytes → K → D → Bool) (p : Bytes → Bytes → Bool)
      (q : Bytes → Bool) (h : Handler S) where
    -- The last four options, behind any outcome of those before.
    methods-set :
        (mw : List (Middleware S)) (x : Outcome (Server S D K) D)
        → with_middleware mw ≡ h
        → IfFine host (HasMethods k p q h) (
            and_then
              (λ s d. with_some_key host s.host_signers s d)
              (and_then
                (apply_options (
                  with_public_key_auth host k
                  ∷ with_password_auth host p
                  ∷ with_keyboard_interactive_auth host q
                  ∷ with_middleware_option mw
                  ∷ []))
                x))
    unfolding apply_options with_public_key_auth with_password_auth with_keyboard_interactive_auth
        with_middleware_option
    methods-set mw (failed e d) c = tt
    methods-set mw (fine s d) c =
        let s1 = record s { public_key_handler = some k } in
        let s2 = record s1 { password_handler = some p } in
        let s3 = record s2 { keyboard_handler = some q } in
        let s4 = record s3 { handler = some (with_middleware mw) } in
        rw (laws.sets_key k s d, laws.sets_password p s1 d, laws.sets_keyboard q s2 d)
          (with_some_key-IfFine host laws.keeps (HasMethods k p q h) (λ s ks m. m) s4.host_signers
            s4 d (refl, refl, refl, ap some c))

  module _ (laws : MethodLaws) (parse : Bytes → Option K) (keys_equal : K → Option K → Bool)
      (challengers : Bytes → Challenger) (users : Users) (logger : Logger)
      (key_text : Option Bytes → Bytes) (s : Server S D K) (d d' : D) where
    methods :
        multi_auth_server host parse keys_equal challengers users logger key_text d ≡ fine s d'
        → HasMethods
            (λ user key e. has_key parse keys_equal users key)
            (λ user password. is_password password)
            (λ user. answers_right (challengers user))
            (with_middleware (logging logger ∷ greet key_text ∷ []))
            s
    unfolding multi_auth_server new_server apply_options with_address options
    methods f =
        let (key_file, e) = with_host_key_path host (codes ".ssh/id_ed25519") d in
        let begun = key_file (record empty_server { addr = codes "localhost:23234" }) e in
        subst
          (IfFine host (
            HasMethods (λ user key e. has_key parse keys_equal users key)
              (λ user password. is_password password) (λ user. answers_right (challengers user))
              (with_middleware (logging logger ∷ greet key_text ∷ []))))
          f
          (methods-set laws (λ user key e. has_key parse keys_equal users key)
            (λ user password. is_password password) (λ user. answers_right (challengers user))
            (with_middleware (logging logger ∷ greet key_text ∷ []))
            (logging logger ∷ greet key_text ∷ []) begun refl)

    -- The server of the example, if `NewServer` returns it, lets a client in by a key exactly if a user of the table
    -- has that key, in whatever order the table is gone through; by a password if it is the valid one; and by the
    -- questions if the answers are two, "5" and "vim"; and greets every session and does nothing else: the middleware for the log never runs, since
    -- the one that greets is outside of it and does not call the next. A key that cannot be parsed is taken to be equal
    -- to none, and the options of the package ssh set what they are named for.
    pub multi_auth_server-Accepts :
        (user : Bytes) (key : K) (e : D) (password : Bytes) (x : Session) (w : World S)
        → ((k : K) → keys_equal k none ≡ false)
        → multi_auth_server host parse keys_equal challengers users logger key_text d ≡ fine s d'
        → (LetsIn host s user key e ↔ Has parse keys_equal users key)
          × (Accepts s.password_handler (λ h. h user password) ↔ (password ≡ valid_password))
          × (Accepts s.keyboard_handler (λ h. h user) ↔ (
              challengers user questions (true ∷ true ∷ []) ≡ some (codes "5" ∷ codes "vim" ∷ [])))
          × ((h : Handler S) × (s.handler ≡ some h)
              × (h x w ≡ (
                record w {
                  events =
                      w.events
                      ++ stdout (codes "Authorized!" ++ codes "\n")
                        ∷ stdout (key_text x.public_key ++ codes "\n")
                        ∷ [];
                },
                none,
              )))
    unfolding with_middleware greet println
    multi_auth_server-Accepts user key e password x w nil f =
        let (k, p, q, h) = methods f in
        (
          ↔_trans
              (Accepts_iff s.public_key_handler (λ u x e. has_key parse keys_equal users x)
                (λ g. g user key e) k)
              (has_key_iff parse keys_equal nil users key),
          ↔_trans (Accepts_iff s.password_handler (λ u x. is_password x) (λ g. g user password) p)
              (is_password_iff password),
          ↔_trans
              (Accepts_iff s.keyboard_handler (λ u. answers_right (challengers u)) (λ g. g user) q)
              (answers_right_iff (challengers user)),
          (with_middleware (logging logger ∷ greet key_text ∷ []), h, simp (append_assoc)),
        )
