-- ===== src/FilePath/Idempotent.antt =====
-- Cleaning a cleaned path changes nothing.
use mathlib.Core.List.{reverse, reverse-reverse}
use wish.Base.{
  ℕ, zero, suc, ◌+◌, Bytes, List, [], ◌∷◌, ◌++◌, ◌≡◌, refl, ap, arith, All, All-append, Lacks, true,
  false, append-nil, replicate, All-reverse, Bool-cases, inl, inr, ◌∙◌, has_byte-Lacks, bytes_eq,
}
use wish.FilePath.{
  slash, dot_dot, split_slash, clean_parts, nothing_yet, IsName, render, is_rooted, clean,
}
use wish.FilePath.Split.{split_slash-join_slash, split_slash-Lacks}
use wish.FilePath.Names.{IsName-Lacks, clean_parts_names, clean_parts-append, clean_parts-IsName}
use wish.FilePath.Laws.{clean-render, clean-slash}

-- The elements of a path that is not rooted.
abbrev pub climbing : ℕ → List Bytes → List Bytes
climbing k ms = replicate k dot_dot ++ ms

clean_parts-dot_dots :
    (u k : ℕ)
    → clean_parts false (record { ups = u; names = [] }) (replicate k dot_dot)
      ≡ record { ups = u + k; names = [] }
unfolding clean_parts
clean_parts-dot_dots u zero = ap (λ v. record { ups = v; names = [] }) (omega arith)
clean_parts-dot_dots u (suc k) =
    clean_parts-dot_dots (suc u) k ∙ ap (λ v. record { ups = v; names = [] }) (omega arith)

dot_dots-Lacks : (k : ℕ) → All (Lacks slash) (replicate k dot_dot)
dot_dots-Lacks zero = tt
dot_dots-Lacks (suc k) = (omega arith, dot_dots-Lacks k)

pub climbing-Lacks : (k : ℕ) (ms : List Bytes) → All IsName ms → All (Lacks slash) (climbing k ms)
climbing-Lacks k ms h =
    All-append (Lacks slash) (replicate k dot_dot) ms (dot_dots-Lacks k) (IsName-Lacks ms h)

clean_parts-climbing :
    (k : ℕ) (ms : List Bytes)
    → All IsName ms
    → clean_parts false nothing_yet (climbing k ms) ≡ record { ups = k; names = reverse ms }
clean_parts-climbing k ms h =
    rw
      (
        clean_parts-append,
        clean_parts-dot_dots 0 k,
        clean_parts_names false (record { ups = 0 + k; names = [] }) ms h,
        append-nil,
      )
      (ap (λ u. record { ups = u; names = reverse ms }) (omega arith))

pub is_rooted-climbing :
    (k : ℕ) (ms : List Bytes) → All IsName ms → is_rooted (render false (climbing k ms)) ≡ false
is_rooted-climbing (suc k) ms h = refl
is_rooted-climbing zero [] h = refl
is_rooted-climbing zero ([] ∷ ms) (n, h) = unfold bytes_eq in cc (n.nonempty)
is_rooted-climbing zero ((c ∷ p) ∷ ms) (n, h) =
    let (x, xs) = has_byte-Lacks slash (c ∷ p) n.no_slash in ground arith

split_slash_parts :
    (ps : List Bytes)
    → All (Lacks slash) ps
    → clean_parts false nothing_yet (split_slash (render false ps))
      ≡ clean_parts false nothing_yet ps
split_slash_parts [] h = unfold split_slash clean_parts in refl
split_slash_parts (p ∷ ps) h = rw (split_slash-join_slash p ps h)

pub clean-climbing :
    (k : ℕ) (ms : List Bytes)
    → All IsName ms
    → clean (render false (climbing k ms)) ≡ render false (climbing k ms)
unfolding clean
clean-climbing k ms h = rw (
  is_rooted-climbing k ms h,
  split_slash_parts (climbing k ms) (climbing-Lacks k ms h),
  clean_parts-climbing k ms h,
  reverse-reverse,
)

-- A path that is not rooted cleans to ".." elements and names behind them.
pub clean_unrooted :
    (path : Bytes)
    → is_rooted path ≡ false
    → (k : ℕ) × (ms : List Bytes) × (clean path ≡ render false (climbing k ms)) × All IsName ms
unfolding clean
clean_unrooted path e =
    let c = clean_parts false nothing_yet (split_slash path) in
    (
      c.ups,
      reverse c.names,
      rw e,
      All-reverse IsName c.names
          (clean_parts-IsName false nothing_yet (split_slash path) (split_slash-Lacks path) tt),
    )

pub clean_rooted :
    (path : Bytes)
    → is_rooted path ≡ true
    → (ms : List Bytes) × (clean path ≡ render true ms) × All IsName ms
clean_rooted [] e = absurd (cc)
clean_rooted (c ∷ s) e = let e' : c ≡ slash = ground arith in rw e' (clean-slash s)

-- `Clean` of any path is a fixed point of `Clean`.
pub clean_idempotent : (path : Bytes) → clean (clean path) ≡ clean path
clean_idempotent path = elim (Bool-cases (is_rooted path)) [
  | inl e ↦ let (ms, p, h) = clean_rooted path e in rw p (clean-render true ms h)
  | inr e ↦ let (k, ms, p, h) = clean_unrooted path e in rw p (clean-climbing k ms h)
]
