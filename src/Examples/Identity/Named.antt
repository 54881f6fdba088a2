-- ===== src/Examples/Identity/Named.antt =====
-- The table of users is a map, and a loop over it may take any order.
use mathlib.Core.List.{Perm, Permᴰ}
use mathlib.Core.List.Permᴰ
use mathlib.Core.List.Permᴰ.{nil, cons, swap, trans}
use mathlib.Core.Logic.{∥∥₁_elim}
use wish.Base.{
  Bytes, codes, [], ◌∷◌, Bool, true, Option, none, some, ◌≡◌, ◌⊎◌, refl, inl, inr, sym, ap, ◌∙◌,
  subst, Bool-cases, Option-cases,
}
use wish.Session.{Session, World, Handler}
use wish.Examples.Auth.{Users}
use wish.Middleware.{Logger, logging, with_middleware}
use wish.Server.{
  Server, fine, Host, with_address, with_host_key_path, with_public_key_auth,
  with_middleware_option,
}
use wish.Server.Kept.{SetsSigners, IfFine, new_server-IfFine}
use wish.Examples.Identity.{is_ed25519, identity_server, name_of, greet_by_name}

module _ {X K : Type 0} (parse : Bytes → Option K) (keys_equal : X → Option K → Bool)
    (key : X) where
  -- A user of this name is in the table with this key.
  abbrev pub Named : Bytes → Users → Type 0
  Named n [] = ⊥
  Named n (u ∷ us) = ((u.0 ≡ n) × (keys_equal key (parse u.1) ≡ true)) ⊎ Named n us

  -- Nobody shares the key with a user of another name.
  abbrev pub HasOwnKeys : Users → Type 0
  HasOwnKeys us = (n m : Bytes) → Named n us → Named m us → n ≡ m

  pub Named-Perm : {us vs : Users} (n : Bytes) → Permᴰ us vs → Named n us → Named n vs
  Named-Perm n nil h = h
  Named-Perm n (cons e p) (inl h) =
      inl (subst (λ u. (u.0 ≡ n) × (keys_equal key (parse u.1) ≡ true)) e h)
  Named-Perm n (cons e p) (inr h) = inr (Named-Perm n p h)
  Named-Perm n (swap e f) (inl h) =
      inr (inl (subst (λ u. (u.0 ≡ n) × (keys_equal key (parse u.1) ≡ true)) e h))
  Named-Perm n (swap e f) (inr (inl h)) =
      inl (subst (λ u. (u.0 ≡ n) × (keys_equal key (parse u.1) ≡ true)) f h)
  Named-Perm n (swap e f) (inr (inr h)) = inr (inr h)
  Named-Perm n (trans p q) h = Named-Perm n q (Named-Perm n p h)

  name_of-Named : (us : Users) (n : Bytes) → name_of parse keys_equal us key ≡ some n → Named n us
  unfolding name_of
  name_of-Named [] n h = absurd (cc h)
  name_of-Named ((m, text) ∷ us) n h = elim (Bool-cases (keys_equal key (parse text))) [
    | inl c ↦ inl (cc (rw c at h), c)
    | inr c ↦ inr (name_of-Named us n (rw c at h))
  ]

  Named-name_of : (us : Users) (n : Bytes) → Named n us → name_of parse keys_equal us key ≡ none → ⊥
  unfolding name_of
  Named-name_of [] n k h = k
  Named-name_of (u ∷ us) n (inl (e, c)) h = cc (rw c at h)
  Named-name_of (u ∷ us) n (inr k) h = elim (Bool-cases (keys_equal key (parse u.1))) [
    | inl c ↦ cc (rw c at h)
    | inr c ↦ Named-name_of us n k (rw c at h)
  ]

  name_of-Permᴰ :
      {us vs : Users}
      → Permᴰ us vs
      → HasOwnKeys us
      → name_of parse keys_equal us key ≡ name_of parse keys_equal vs key
  name_of-Permᴰ {us} {vs} p own = elim (Option-cases (name_of parse keys_equal us key)) [
    | inl a ↦ elim (Option-cases (name_of parse keys_equal vs key)) [
      | inl b ↦ a ∙ sym b
      | inr (m, b) ↦
          absurd (Named-name_of us m (Named-Perm m (Permᴰ.symm p) (name_of-Named vs m b)) a)
    ]
    | inr (n, a) ↦ elim (Option-cases (name_of parse keys_equal vs key)) [
      | inl b ↦ absurd (Named-name_of vs n (Named-Perm n p (name_of-Named us n a)) b)
      | inr (m, b) ↦
          a
          ∙ ap some
              (own n m (name_of-Named us n a) (Named-Perm m (Permᴰ.symm p) (name_of-Named vs m b)))
          ∙ sym b
    ]
  ]

  name_of-Perm :
      (us vs : Users)
      → Perm us vs
      → HasOwnKeys us
      → name_of parse keys_equal us key ≡ name_of parse keys_equal vs key
  name_of-Perm us vs p own = ∥∥₁_elim p (hlevel) (λ q. name_of-Permᴰ q own)

module _ {S D K C : Type 0} (host : Host S D K C) (type_of : K → Bytes) (parse : Bytes → Option K)
    (keys_equal : Option Bytes → Option K → Bool) (logger : Logger) where
  -- The greeting is inside of the log.
  abbrev pub greeting_handler : Users → Handler S
  unfolding with_middleware greet_by_name logging
  greeting_handler users =
      with_middleware (greet_by_name parse keys_equal users ∷ logging logger ∷ [])

  handler_set :
      (users : Users) (s : Server S D K) (d d' : D)
      → SetsSigners host
      → identity_server host type_of parse keys_equal users logger d ≡ fine s d'
      → s.handler ≡ some (greeting_handler users)
  unfolding identity_server with_middleware_option greeting_handler
  handler_set users s d d' sets f =
      let (key_file, e) = with_host_key_path host (codes ".ssh/id_ed25519") d in
      subst (IfFine host (λ t. t.handler ≡ some (greeting_handler users))) f (
        new_server-IfFine host sets (λ t. t.handler ≡ some (greeting_handler users)) (λ t ks q. q)
          (with_address (codes "localhost:23234")
            ∷ key_file
            ∷ with_public_key_auth host (λ user key d. is_ed25519 type_of key)
            ∷ [])
          (with_middleware_option (greet_by_name parse keys_equal users ∷ logging logger ∷ [])) e
          (λ t x. refl))

  greeting_handler-Perm :
      (us vs : Users) (v : Session) (w : World S)
      → Perm us vs
      → HasOwnKeys parse keys_equal v.public_key us
      → greeting_handler us v w ≡ greeting_handler vs v w
  unfolding greeting_handler greet_by_name with_middleware logging
  greeting_handler-Perm us vs v w p own =
      rw (name_of-Perm parse keys_equal v.public_key us vs p own) refl

  -- Two servers of the example identity, made with two orders of one table: `NewServer` gives both a handler, and what
  -- the two do to a session is the same, if no users of two names have the key of the session. Go does not say in which
  -- order a map is gone through. `HostKeyPEM` sets nothing but signers.
  pub identity_server-Perm :
      (us vs : Users) (s t : Server S D K) (d d' e e' : D) (v : Session) (w : World S)
      → SetsSigners host
      → Perm us vs
      → HasOwnKeys parse keys_equal v.public_key us
      → identity_server host type_of parse keys_equal us logger d ≡ fine s d'
      → identity_server host type_of parse keys_equal vs logger e ≡ fine t e'
      → (h : Handler S) × (k : Handler S) × (s.handler ≡ some h)
        × (t.handler ≡ some k)
        × (h v w ≡ k v w)
  identity_server-Perm us vs s t d d' e e' v w sets p own f g = (
    greeting_handler us,
    greeting_handler vs,
    handler_set us s d d' sets f,
    handler_set vs t e e' sets g,
    greeting_handler-Perm us vs v w p own,
  )
