-- ===== src/Examples/Identity/Table.antt =====
-- A map without the order of its entries, and the test of a key against it.
use mathlib.Core.Bool.{Bool-set}
use mathlib.Core.Equiv.{IsContr}
use mathlib.Core.HLevel.{Σ_prop_path}
use mathlib.Core.List.{Perm, Permᴰ}
use mathlib.Core.List.Permᴰ
use mathlib.Core.Logic.{∥∥₁_elim}
use mathlib.Core.Quot
use mathlib.Core.Quot.{Quot}
use wish.Base.{Bytes, [], ◌∷◌, Bool, true, Option, ◌≡◌, refl, ◌∙◌, sym, inl, inr, Bool-cases}
use wish.Examples.Auth.{Users, has_key}
use wish.Examples.Identity.Named.{Named, Named-Perm}

-- A table of users as a Go map has it: in no order.
abbrev pub Table : Type 0
Table = Quot {α = Users} Perm

module _ {K : Type 0} (parse : Bytes → Option K) (keys_equal : K → Option K → Bool) (key : K) where
  has_key-Named :
      (us : Users) (n : Bytes)
      → Named parse keys_equal key n us
      → has_key parse keys_equal us key ≡ true
  unfolding has_key
  has_key-Named [] n k = absurd k
  has_key-Named (u ∷ us) n (inl (e, c)) = rw c refl
  has_key-Named (u ∷ us) n (inr k) = elim (Bool-cases (keys_equal key (parse u.1))) [
    | inl c ↦ rw c refl
    | inr c ↦ rw c (has_key-Named us n k)
  ]

  Named-has_key :
      (us : Users)
      → has_key parse keys_equal us key ≡ true
      → (n : Bytes) × Named parse keys_equal key n us
  unfolding has_key
  Named-has_key [] h = absurd (cc h)
  Named-has_key (u ∷ us) h = elim (Bool-cases (keys_equal key (parse u.1))) [
    | inl c ↦ (u.0, inl (refl, c))
    | inr c ↦ let (n, k) = Named-has_key us (rw c at h) in (n, inr k)
  ]

  kept :
      {us vs : Users}
      → Permᴰ us vs
      → has_key parse keys_equal us key ≡ true
      → has_key parse keys_equal vs key ≡ true
  kept {us} {vs} p h =
      let (n, k) = Named-has_key us h in has_key-Named vs n (Named-Perm parse keys_equal key n p k)

  has_key-Permᴰ :
      {us vs : Users}
      → Permᴰ us vs
      → has_key parse keys_equal us key ≡ has_key parse keys_equal vs key
  has_key-Permᴰ {us} {vs} p = elim (Bool-cases (has_key parse keys_equal us key)) [
    | inl a ↦ a ∙ sym (kept p a)
    | inr a ↦ elim (Bool-cases (has_key parse keys_equal vs key)) [
      | inl b ↦ absurd (cc (a, kept (Permᴰ.symm p) b))
      | inr b ↦ a ∙ sym b
    ]
  ]

  pub has_key-Perm :
      (us vs : Users)
      → Perm us vs
      → has_key parse keys_equal us key ≡ has_key parse keys_equal vs key
  has_key-Perm us vs p = ∥∥₁_elim p (hlevel) (λ q. has_key-Permᴰ q)

  -- The handler of the table
  unfoldable pub table_has_key : Table → Bool
  table_has_key = Quot.lift Bool-set (λ us. has_key parse keys_equal us key) has_key-Perm

  -- A function of tables that does on each order what the loop of the example multi-auth does.
  abbrev pub Loops : (Table → Bool) → Type 0
  Loops f = (us : Users) → f (Quot.mk us) ≡ has_key parse keys_equal us key

  -- Whether a key is that of a user is a function of the table as a map, without an order of its entries, and of
  -- those functions there is exactly one that does on each order what the loop of the example multi-auth does.
  pub has_key-Table : IsContr ((f : Table → Bool) × Loops f)
  unfolding table_has_key
  has_key-Table = (
    (table_has_key, λ us. refl),
    (λ (g, l).
        Σ_prop_path (λ f. hlevel) (λ i q. Quot.ind (λ r. Bool-set (g r) (table_has_key r)) l q i)),
  )
