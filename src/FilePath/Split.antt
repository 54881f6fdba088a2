-- ===== src/FilePath/Split.antt =====
-- Splitting a path at its slashes, and joining the parts again.
use wish.Base.{
  ℕ, Bytes, List, [], ◌∷◌, ◌++◌, ◌≡◌, ◌≢◌, refl, arith, All, Lacks, append-nil, append_assoc,
  ◌≡⟨◌⟩◌, ◌∎,
}
use wish.FilePath.{slash, push_byte, split_slash, slashed, join_slash}

split_slash-ne-nil : (s : Bytes) → split_slash s ≢ []
unfolding split_slash
split_slash-ne-nil [] = ground arith
split_slash-ne-nil (c ∷ s) = ground arith

push_byte-append :
    (c : ℕ) (xs ys : List Bytes) → xs ≢ [] → push_byte c (xs ++ ys) ≡ push_byte c xs ++ ys
push_byte-append c [] ys h = absurd (h refl)
push_byte-append c (p ∷ ps) ys h = refl

pub split_slash-append :
    (a b : Bytes) → split_slash (a ++ slash ∷ b) ≡ split_slash a ++ split_slash b
unfolding split_slash
split_slash-append [] b = refl
split_slash-append (c ∷ a) b = ground (
  arith,
  split_slash-append a b,
  push_byte-append c (split_slash a) (split_slash b) (split_slash-ne-nil a),
)

pub split_slash_of_Lacks : (s : Bytes) → Lacks slash s → split_slash s ≡ s ∷ []
unfolding split_slash
split_slash_of_Lacks [] h = refl
split_slash_of_Lacks (c ∷ s) (n, h) = ground (arith, split_slash_of_Lacks s h)

-- Splitting undoes joining, where no part holds a slash.
pub split_slash-join_slash :
    (p : Bytes) (ps : List Bytes)
    → All (Lacks slash) (p ∷ ps)
    → split_slash (join_slash (p ∷ ps)) ≡ p ∷ ps
split_slash-join_slash p [] (h, hs) = rw append-nil (split_slash_of_Lacks p h)
split_slash-join_slash p (q ∷ qs) (h, hs) =
    split_slash (p ++ slash ∷ (q ++ slashed qs))
    ≡⟨ split_slash-append p _ ⟩ split_slash p ++ split_slash (q ++ slashed qs)
    ≡⟨ rw (split_slash_of_Lacks p h, split_slash-join_slash q qs hs) refl ⟩ p ∷ q ∷ qs ∎

split_slash-Lacks_ne :
    (c : ℕ) (ps : List Bytes)
    → c ≢ slash
    → All (Lacks slash) ps
    → All (Lacks slash) (push_byte c ps)
split_slash-Lacks_ne c [] n h = ((n, tt), tt)
split_slash-Lacks_ne c (p ∷ ps) n (h, hs) = ((n, h), hs)

-- No part holds a slash.
pub split_slash-Lacks : (s : Bytes) → All (Lacks slash) (split_slash s)
unfolding split_slash
split_slash-Lacks [] = (tt, tt)
split_slash-Lacks (c ∷ s) =
    ground (arith, split_slash-Lacks s, split_slash-Lacks_ne c (split_slash s))

pub slashed-append : (xs ys : List Bytes) → slashed (xs ++ ys) ≡ slashed xs ++ slashed ys
slashed-append [] ys = refl
slashed-append (x ∷ xs) ys = simp (slashed-append xs ys, append_assoc)
