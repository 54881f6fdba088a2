-- ===== src/Scp/FileSystem/Prefixed.antt =====
-- `prefixed`: where the root is a cleaned path made of names, every request resolves below it, and
-- no request is refused. At the roots ".", "/" and ".." it does neither.
use wish.Base.{
  ℕ, zero, suc, Bytes, codes, List, [], ◌∷◌, ◌++◌, Bool, true, false, some, bytes_eq, bytes_eq_iff,
  bytes_eq_self, has_prefix_rest, has_prefix-append, ◌≡◌, refl, arith, ◌∙◌, ap, sym, All,
  All-append_right, Lacks, append-nil, append_assoc, Bool-cases, inl, inr, subst,
}
use wish.FilePath.{
  slash, dot_dot, IsName, render, join_slash, slashed, split_slash, clean, join, is_rooted,
}
use wish.FilePath.Split.{split_slash-join_slash, split_slash-append, slashed-append}
use wish.FilePath.Names.{IsName-Lacks}
use wish.FilePath.Laws.{name-ne-nil, is_rooted-render, clean-slash, join-render_names}
use wish.FilePath.Idempotent.{
  climbing, climbing-Lacks, is_rooted-climbing, clean_rooted, clean_unrooted,
}
use wish.Scp.FileSystem.{is_under, prefixed}

-- `q` is the path of `ns`, or lies below it by names.
abbrev pub Below : Bool → List Bytes → Bytes → Type 0
Below r ns q = (ms : List Bytes) × (q ≡ render r (ns ++ ms)) × All IsName ms

-- Two lists of parts that agree on the first of them.
pub first-eq : (p q : Bytes) (ps qs : List Bytes) → p ∷ ps ≡ q ∷ qs → p ≡ q
first-eq p q ps qs e = cc

pub not_itself : (p q : Bytes) → p ≡ q → bytes_eq q p ≡ false → ⊥
not_itself p q e h = cc ((bytes_eq_iff q p).1 (sym e), h)

pub names_split :
    (ns ms : List Bytes) (p s : Bytes)
    → IsName p
    → All (Lacks slash) (p ∷ ns)
    → All (Lacks slash) ms
    → join_slash ms ≡ join_slash (p ∷ ns) ++ slash ∷ s
    → ms ≡ (p ∷ ns) ++ split_slash s
names_split ns [] p s n h k e = absurd (
    name-ne-nil p (slashed ns ++ slash ∷ s) n
      (sym (append_assoc p (slashed ns) (slash ∷ s)) ∙ sym e))
names_split ns (m ∷ ms) p s n h k e =
    sym (split_slash-join_slash m ms k)
    ∙ ap split_slash e
    ∙ split_slash-append (join_slash (p ∷ ns)) s
    ∙ ap (λ t. t ++ split_slash s) (split_slash-join_slash p ns h)

rooted_both : (q : Bytes) → is_rooted q ≡ true → is_rooted q ≡ false → ⊥
rooted_both q h k = cc (h, k)

-- What a cleaned path looks like that continues the path of names.
Below-rooted :
    (p : Bytes) (ns : List Bytes) (path s : Bytes)
    → All IsName (p ∷ ns)
    → clean path ≡ render true (p ∷ ns) ++ slash ∷ s
    → Below true (p ∷ ns) (clean path)
Below-rooted p ns path s h e = elim (Bool-cases (is_rooted path)) [
  | inl rooted ↦
      let (ms, c, k) = clean_rooted path rooted in
      let f : join_slash ms ≡ join_slash (p ∷ ns) ++ slash ∷ s = cc (c, e) in
      let g = names_split ns ms p s h.0 (IsName-Lacks (p ∷ ns) h) (IsName-Lacks ms k) f in
      (
        split_slash s,
        c ∙ ap (render true) g,
        All-append_right IsName (p ∷ ns) (split_slash s) (subst (All IsName) g k),
      )
  | inr climbs ↦
      let (k, ms, c, g) = clean_unrooted path climbs in
      absurd
        (rooted_both (clean path) (ap is_rooted e) (ap is_rooted c ∙ is_rooted-climbing k ms g))
]

Below-climbing :
    (k : ℕ) (ms : List Bytes) (p : Bytes) (ns : List Bytes) (s q : Bytes)
    → All IsName (p ∷ ns)
    → All IsName ms
    → q ≡ render false (climbing k ms)
    → q ≡ render false (p ∷ ns) ++ slash ∷ s
    → Below false (p ∷ ns) q
Below-climbing zero [] p ns s q h g c e =
    let f =
      names_split ns (codes "." ∷ []) p s h.0 (IsName-Lacks (p ∷ ns) h) (omega arith, tt)
        (sym c ∙ e) in
    absurd
      (not_itself (codes ".") p (first-eq (codes ".") p [] (ns ++ split_slash s) f) h.0.not_dot)
Below-climbing zero (m ∷ ms) p ns s q h g c e =
    let f =
      names_split ns (m ∷ ms) p s h.0 (IsName-Lacks (p ∷ ns) h) (IsName-Lacks (m ∷ ms) g)
        (sym c ∙ e) in
    (
      split_slash s,
      c ∙ ap (render false) f,
      All-append_right IsName (p ∷ ns) (split_slash s) (subst (All IsName) f g),
    )
Below-climbing (suc k) ms p ns s q h g c e =
    let f =
      names_split ns (climbing (suc k) ms) p s h.0 (IsName-Lacks (p ∷ ns) h)
        (climbing-Lacks (suc k) ms g) (sym c ∙ e) in
    absurd (
      not_itself dot_dot p (first-eq dot_dot p (climbing k ms) (ns ++ split_slash s) f)
        h.0.not_dot_dot)

Below-unrooted :
    (p : Bytes) (ns : List Bytes) (path s : Bytes)
    → All IsName (p ∷ ns)
    → clean path ≡ render false (p ∷ ns) ++ slash ∷ s
    → Below false (p ∷ ns) (clean path)
Below-unrooted p ns path s h e = elim (Bool-cases (is_rooted path)) [
  | inl rooted ↦
      let (ms, c, k) = clean_rooted path rooted in
      absurd (
        rooted_both (clean path) (ap is_rooted c)
          (ap is_rooted e ∙ is_rooted-render false (p ∷ ns) (slash ∷ s) h))
  | inr climbs ↦
      let (k, ms, c, g) = clean_unrooted path climbs in
      Below-climbing k ms p ns s (clean path) h g c e
]

Below-prefix :
    (r : Bool) (p : Bytes) (ns : List Bytes) (path s : Bytes)
    → All IsName (p ∷ ns)
    → clean path ≡ render r (p ∷ ns) ++ slash ∷ s
    → Below r (p ∷ ns) (clean path)
Below-prefix true p ns path s h e = Below-rooted p ns path s h e
Below-prefix false p ns path s h e = Below-unrooted p ns path s h e

-- A path that passes the test is the root or lies below it.
is_under-Below :
    (r : Bool) (p : Bytes) (ns : List Bytes) (path : Bytes)
    → All IsName (p ∷ ns)
    → is_under (render r (p ∷ ns)) (clean path) ≡ true
    → Below r (p ∷ ns) (clean path)
unfolding is_under
is_under-Below r p ns path h t = elim (Bool-cases (bytes_eq (clean path) (render r (p ∷ ns)))) [
  | inl e ↦ (
    [],
    (bytes_eq_iff (clean path) (render r (p ∷ ns))).0 e ∙ ap (render r) (sym (append-nil (p ∷ ns))),
    tt,
  )
  | inr e ↦
      let (s, f) = has_prefix_rest (clean path) (render r (p ∷ ns) ++ slash ∷ []) (rw e at t) in
      Below-prefix r p ns path s h (f ∙ append_assoc (render r (p ∷ ns)) (slash ∷ []) s)
]

pub render-append :
    (r : Bool) (p m : Bytes) (ns ms : List Bytes)
    → render r ((p ∷ ns) ++ m ∷ ms) ≡ (render r (p ∷ ns) ++ slash ∷ []) ++ join_slash (m ∷ ms)
render-append true p m ns ms = simp (slashed-append, append_assoc)
render-append false p m ns ms = simp (slashed-append, append_assoc)

pub is_under_names :
    (r : Bool) (p : Bytes) (ns ms : List Bytes)
    → is_under (render r (p ∷ ns)) (render r ((p ∷ ns) ++ ms)) ≡ true
unfolding is_under
is_under_names r p ns [] = rw (append-nil ns) (ground (arith, bytes_eq_self (render r (p ∷ ns))))
is_under_names r p ns (m ∷ ms) =
    rw (render-append r p m ns ms)
      (ground (arith, has_prefix-append (render r (p ∷ ns) ++ slash ∷ []) (join_slash (m ∷ ms))))

-- At a root that is a cleaned path of names, absolute or relative, `prefixed` refuses no request, and
-- its result is the root with names behind it: no request leaves the root.
pub prefixed-Below :
    (r : Bool) (p : Bytes) (ns : List Bytes) (path : Bytes)
    → All IsName (p ∷ ns)
    → (ms : List Bytes) × (prefixed (render r (p ∷ ns)) path ≡ some (render r ((p ∷ ns) ++ ms)))
      × All IsName ms
unfolding prefixed
prefixed-Below r p ns path h = elim (Bool-cases (is_under (render r (p ∷ ns)) (clean path))) [
  | inl t ↦ let (ms, e, k) = is_under-Below r p ns path h t in (ms, rw t (ap some e), k)
  | inr t ↦
      let (ms, c, k) = clean-slash path in
      let j = ap (join (render r (p ∷ ns))) c ∙ join-render_names r (p ∷ ns) ms h k in
      (ms, rw (t, j, is_under_names r p ns ms) refl, k)
]
