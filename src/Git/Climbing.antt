-- ===== src/Git/Climbing.antt =====
-- Which repositories the count of slashes lets through.
use wish.Base.{
  Bytes, codes, [], ◌∷◌, ◌++◌, false, bytes_eq, has_prefix, count_byte, ltb, trim_prefix, ◌≡◌, refl,
  arith, Lacks, has_byte-Lacks, append-nil, ◌∙◌, ap,
}
use wish.FilePath.{slash, IsName, clean}
use wish.FilePath.Idempotent.{clean-climbing}
use wish.Git.{trim_slash, repo_of}

trim_slash-Lacks : (s : Bytes) → Lacks slash s → trim_slash s ≡ s
unfolding trim_slash
trim_slash-Lacks [] h = refl
trim_slash-Lacks (c ∷ []) h = ground arith
trim_slash-Lacks (c ∷ d ∷ s) h = ap (λ t. c ∷ t) (trim_slash-Lacks (d ∷ s) h.1)

count_byte-Lacks : (s : Bytes) → Lacks slash s → count_byte slash s ≡ 0
unfolding count_byte
count_byte-Lacks [] h = refl
count_byte-Lacks (c ∷ s) h = ground (arith, count_byte-Lacks s)

trim_climbing :
    (n : Bytes)
    → IsName n
    → trim_slash (trim_prefix (codes "../" ++ n) (codes "/")) ≡ codes "../" ++ n
unfolding trim_slash trim_prefix has_prefix
trim_climbing [] h = absurd (unfold bytes_eq in cc (h.nonempty))
trim_climbing (c ∷ n) h =
    ap (λ t. codes "../" ++ t) (trim_slash-Lacks (c ∷ n) (has_byte-Lacks slash (c ∷ n) h.no_slash))

one_slash : (n : Bytes) → Lacks slash n → ltb 1 (count_byte slash (codes "../" ++ n)) ≡ false
unfolding count_byte
one_slash n h = rw (count_byte-Lacks n h) refl

-- The repository "../n" has one slash, so the check lets it through: the hook is asked about it as it
-- stands, and it names an entry beside the directory of the repositories.
pub repo_of_climbing :
    (n : Bytes)
    → IsName n
    → (repo_of (codes "../" ++ n) ≡ codes "../" ++ n)
      × (ltb 1 (count_byte slash (repo_of (codes "../" ++ n))) ≡ false)
unfolding repo_of
repo_of_climbing n h =
    let e : clean (codes "../" ++ n) ≡ codes "../" ++ n =
      rw append-nil at (clean-climbing 1 (n ∷ []) (h, tt)) in
    let f : repo_of (codes "../" ++ n) ≡ codes "../" ++ n = ap clean (trim_climbing n h) ∙ e in
    (f, rw f (one_slash n (has_byte-Lacks slash n h.no_slash)))
