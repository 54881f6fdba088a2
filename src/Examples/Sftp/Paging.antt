-- ===== src/Examples/Sftp/Paging.antt =====
-- Listing a directory page by page.
use wish.Base.{
  ℕ, zero, suc, ◌+◌, ◌≤◌, ◌<◌, List, [], ◌∷◌, ◌++◌, ltb, leb, length, take, drop, length-take,
  take-append-drop, if◌then◌else◌, ◌≡◌, refl, arith, ap, sym, ◌∙◌, Bool-cases, inl, inr,
}
use wish.Examples.Sftp.{list_at}

module _ {A : Type 0} where
  -- Whoever lists page by page, with a place of its choice for each, until the error is EOF: with `n`
  -- rounds left, the place is `places n`.
  unfoldable pub pages : (ℕ → ℕ) → List A → ℕ → ℕ → List A
  unfolding list_at
  pages places l zero offset = []
  pages places l (suc n) offset =
      let x = list_at l (places n) offset in
      let later = pages places l n (offset + length x.0) in if x.1 then x.0 else x.0 ++ later

  drop_all : (n : ℕ) (l : List A) → length l ≤ n → drop n l ≡ []
  drop_all zero [] h = refl
  drop_all (suc n) [] h = refl
  drop_all zero (x ∷ l) h = absurd (omega (arith, h))
  drop_all (suc n) (x ∷ l) h = drop_all n l (omega (arith, h))

  drop_twice : (m n : ℕ) (l : List A) → drop (m + n) l ≡ drop n (drop m l)
  drop_twice zero n l = ap (λ k. drop k l) (omega arith)
  drop_twice (suc m) n [] =
      drop_all (suc m + n) [] (omega arith) ∙ sym (drop_all n [] (omega arith))
  drop_twice (suc m) n (x ∷ l) =
      ap (λ k. drop k (x ∷ l)) {x = suc m + n} {y = suc (m + n)} (omega arith) ∙ drop_twice m n l

  take_all : (n : ℕ) (l : List A) → length (take n l) < n → take n l ≡ l
  take_all zero l h = absurd (omega (arith, h))
  take_all (suc n) [] h = refl
  take_all (suc n) (x ∷ l) h = ap (λ t. x ∷ t) (take_all n l (omega (arith, h)))

  pages-drop :
      (places : ℕ → ℕ) (l : List A) (n offset : ℕ)
      → ((i : ℕ) → 1 ≤ places i)
      → length l < n + offset
      → pages places l n offset ≡ drop offset l
  unfolding pages list_at
  pages-drop places l zero offset k h = sym (drop_all offset l (omega (arith, h)))
  pages-drop places l (suc n) offset k h = elim (Bool-cases (leb (length l) offset)) [
    | inl e ↦ rw e (sym (drop_all offset l (ground (arith, e))))
    | inr e ↦
        let rest = drop offset l in
        let page = take (places n) rest in
        let some_left : offset < length l = ground (arith, e) in
        elim (Bool-cases (ltb (length page) (places n))) [
          | inl f ↦ rw (e, f) (take_all (places n) rest (ground (arith, f)))
          | inr f ↦
              let enough : places n ≤ length page = ground (arith, f) in
              let full : length page ≡ places n =
                omega (arith, enough, length-take (places n) rest) in
              rw
                (
                  e,
                  f,
                  pages-drop places l n (offset + length page) k (omega (arith, h, full, k n)),
                  drop_twice offset (length page) l,
                  full,
                )
                (take-append-drop (places n) rest)
        ]
  ]

  -- Listing page by page, with places of one entry or more, gives each entry once and in order, and takes at most
  -- one round more than there are entries.
  pub pages_whole :
      (places : ℕ → ℕ) (l : List A)
      → ((i : ℕ) → 1 ≤ places i)
      → pages places l (suc (length l)) 0 ≡ l
  pages_whole places l k = pages-drop places l (suc (length l)) 0 k (omega arith)
