-- ===== src/Examples/Auth/Checks.antt =====
-- What the three checks of the example accept.
use wish.Base.{
  Bytes, bytes_eq, bytes_eq_iff, codes, List, [], ◌∷◌, ◌++◌, Bool, true, false, ◌&&◌, Option, none,
  some, ◌≡◌, ◌↔◌, refl, ap, ◌∙◌, sym, inl, inr, Bool-cases, Option-cases,
}
use wish.Examples.Auth.{
  Users, valid_password, has_key, is_password, Challenger, questions, are_right, answers_right,
}

module _ {K : Type 0} (parse : Bytes → Option K) (keys_equal : K → Option K → Bool) where
  -- A user of the table has this key.
  abbrev pub Has : Users → K → Type 0
  Has users key =
      (name : Bytes) × (text : Bytes) × (k : K) × ((before : Users) × (after : Users) × (users
          ≡ before ++ (name, text) ∷ after))
      × (parse text ≡ some k)
      × (keys_equal key (some k) ≡ true)

  Has-cons : (u : Bytes × Bytes) (users : Users) (key : K) → Has users key → Has (u ∷ users) key
  Has-cons u users key (name, text, k, (before, after, e), p, q) =
      (name, text, k, (u ∷ before, after, ap (λ x. u ∷ x) e), p, q)

  module _ (nil : (key : K) → keys_equal key none ≡ false) where
    has_key-Has :
        (users : Users) (key : K) → has_key parse keys_equal users key ≡ true → Has users key
    unfolding has_key
    has_key-Has [] key h = absurd (cc h)
    has_key-Has ((name, text) ∷ users) key h = elim (Bool-cases (keys_equal key (parse text))) [
      | inr c ↦ Has-cons (name, text) users key (has_key-Has users key (rw c at h))
      | inl c ↦ elim (Option-cases (parse text)) [
        | inl n ↦ absurd (cc (nil key, rw n at c))
        | inr (k, p) ↦ (name, text, k, ([], users, refl), p, rw p at c)
      ]
    ]

    has_key-append :
        (before : Users) (name text : Bytes) (after : Users) (key : K)
        → keys_equal key (parse text) ≡ true
        → has_key parse keys_equal (before ++ (name, text) ∷ after) key ≡ true
    unfolding has_key
    has_key-append [] name text after key h = rw h refl
    has_key-append ((n, t) ∷ before) name text after key h =
        elim (Bool-cases (keys_equal key (parse t))) [
          | inl c ↦ rw c refl
          | inr c ↦ rw c (has_key-append before name text after key h)
        ]

    pub has_key_iff :
        (users : Users) (key : K) → has_key parse keys_equal users key ≡ true ↔ Has users key
    has_key_iff users key = (
      has_key-Has users key,
      (λ (name, text, k, (before, after, e), p, q).
          rw e (has_key-append before name text after key (ap (keys_equal key) p ∙ q))),
    )

and_true : (a b : Bool) → (a && b) ≡ true → (a ≡ true) × (b ≡ true)
and_true true b h = (refl, h)
and_true false b h = absurd (cc h)

are_right-five :
    (o : Option (List Bytes)) → are_right o ≡ true → o ≡ some (codes "5" ∷ codes "vim" ∷ [])
are_right-five none h = absurd (cc h)
are_right-five (some []) h = absurd (cc h)
are_right-five (some (a ∷ [])) h = absurd (cc h)
are_right-five (some (a ∷ b ∷ c ∷ l)) h = absurd (cc h)
are_right-five (some (a ∷ b ∷ [])) h =
    let (p, q) = and_true (bytes_eq a (codes "5")) (bytes_eq b (codes "vim")) h in
    cc ((bytes_eq_iff a (codes "5")).0 p, (bytes_eq_iff b (codes "vim")).0 q)

five-are_right :
    (o : Option (List Bytes)) → o ≡ some (codes "5" ∷ codes "vim" ∷ []) → are_right o ≡ true
unfolding bytes_eq
five-are_right o e = rw e refl

pub is_password_iff : (password : Bytes) → is_password password ≡ true ↔ (password ≡ valid_password)
unfolding is_password
is_password_iff password = bytes_eq_iff password valid_password

pub answers_right_iff :
    (challenger : Challenger)
    → answers_right challenger ≡ true
      ↔ (challenger questions (true ∷ true ∷ []) ≡ some (codes "5" ∷ codes "vim" ∷ []))
unfolding answers_right
answers_right_iff challenger = (
  are_right-five (challenger questions (true ∷ true ∷ [])),
  five-are_right (challenger questions (true ∷ true ∷ [])),
)

-- A handler is set that accepts this.
abbrev pub Accepts : {X : Type 0} → Option X → (X → Bool) → Type 0
Accepts o test = (h : _) × (o ≡ some h) × (test h ≡ true)

pub Accepts_iff :
    {X : Type 0} (o : Option X) (h : X) (test : X → Bool)
    → o ≡ some h
    → Accepts o test ↔ (test h ≡ true)
Accepts_iff o h test e = (
  (λ (g, f, a).
      let both : some h ≡ some g = sym e ∙ f in let same : h ≡ g = cc both in ap test same ∙ a),
  (λ a. (h, e, a)),
)
