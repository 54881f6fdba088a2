-- ===== src/Scp/FileSystem/Roots.antt =====
-- What `prefixed` does at the roots ".", "/" and "..", which are no paths of names.
use wish.Base.{
  Bytes, codes, List, [], ◌∷◌, ◌++◌, true, false, none, some, bytes_eq, bytes_eq_iff, has_prefix,
  has_prefix_rest, ◌≡◌, refl, arith, ◌∙◌, ap, sym, All, append-nil, Bool-cases, inl, inr,
  has_byte-Lacks,
}
use wish.FilePath.{slash, dot_dot, IsName, join_slash, split_slash, clean, join}
use wish.FilePath.Split.{split_slash-join_slash, split_slash-append}
use wish.FilePath.Names.{IsName-Lacks}
use wish.FilePath.Laws.{clean-render, clean-slash_names, join-render_names}
use wish.FilePath.Idempotent.{clean-climbing}
use wish.Scp.FileSystem.{is_under, prefixed}
use wish.Scp.FileSystem.Prefixed.{first-eq, not_itself}

-- `prefixed` at a path that both its branches leave as it is and that fails the test.
refused_twice :
    (root q : Bytes)
    → clean q ≡ q
    → join root (clean (slash ∷ q)) ≡ q
    → is_under root q ≡ false
    → prefixed root q ≡ none
unfolding prefixed
refused_twice root q e f g = rw (e, g, f, g)

dot_first :
    (n : Bytes) (ns : List Bytes) (t : Bytes) (ps : List Bytes)
    → All IsName (n ∷ ns)
    → split_slash t ≡ codes "." ∷ ps
    → join_slash (n ∷ ns) ≡ t
    → ⊥
dot_first n ns t ps h e f =
    not_itself (codes ".") n
      (first-eq (codes ".") n ps ns
        (sym e ∙ ap split_slash (sym f) ∙ split_slash-join_slash n ns (IsName-Lacks (n ∷ ns) h)))
      h.0.not_dot

not_under_dot :
    (n : Bytes) (ns : List Bytes)
    → All IsName (n ∷ ns)
    → is_under (codes ".") (join_slash (n ∷ ns)) ≡ false
unfolding is_under split_slash
not_under_dot n ns h =
    let q = join_slash (n ∷ ns) in
    elim (Bool-cases (bytes_eq q (codes "."))) [
      | inl e ↦ absurd (
          dot_first n ns (codes ".") [] h (unfold split_slash in refl)
            ((bytes_eq_iff q (codes ".")).0 e))
      | inr e ↦ rw e (elim (Bool-cases (has_prefix q (codes "./"))) [
        | inl f ↦
            let (s, g) = has_prefix_rest q (codes "./") f in
            absurd (
              dot_first n ns (codes "./" ++ s) (split_slash s) h (split_slash-append (codes ".") s)
                g)
        | inr f ↦ f
      ])
    ]

-- At the root "." every relative path of names is refused.
prefixed_dot :
    (n : Bytes) (ns : List Bytes)
    → All IsName (n ∷ ns)
    → prefixed (codes ".") (join_slash (n ∷ ns)) ≡ none
prefixed_dot n ns h =
    refused_twice (codes ".") (join_slash (n ∷ ns)) (clean-render false (n ∷ ns) h)
      (ap (join (codes ".")) (clean-render true (n ∷ ns) h)
        ∙ join-render_names false [] (n ∷ ns) tt h)
      (not_under_dot n ns h)

not_under_slash :
    (n : Bytes) (ns : List Bytes)
    → All IsName (n ∷ ns)
    → is_under (slash ∷ []) (slash ∷ join_slash (n ∷ ns)) ≡ false
unfolding is_under
not_under_slash [] ns h = unfold bytes_eq in cc (h.0.nonempty)
not_under_slash (c ∷ n) ns h =
    let (k, ks) = has_byte-Lacks slash (c ∷ n) h.0.no_slash in ground arith

-- So is every absolute path of names at the root "/".
prefixed-slash :
    (n : Bytes) (ns : List Bytes)
    → All IsName (n ∷ ns)
    → prefixed (slash ∷ []) (slash ∷ join_slash (n ∷ ns)) ≡ none
prefixed-slash n ns h =
    refused_twice (slash ∷ []) (slash ∷ join_slash (n ∷ ns)) (clean-render true (n ∷ ns) h)
      (ap (join (slash ∷ [])) (clean-slash_names (n ∷ ns) h)
        ∙ join-render_names true [] (n ∷ ns) tt h)
      (not_under_slash n ns h)

-- At the root ".." a request for "../../n" is granted as it stands: it names an entry beside the root.
prefixed-dot_dot :
    (n : Bytes) → IsName n → prefixed dot_dot (codes "../../" ++ n) ≡ some (codes "../../" ++ n)
unfolding prefixed
prefixed-dot_dot n h =
    let q = codes "../../" ++ n in
    let e : clean q ≡ q = rw append-nil at (clean-climbing 2 (n ∷ []) (h, tt)) in
    rw e (unfold is_under in refl)

-- With roots that are not absolute paths of one or more names: at the root "." every relative path of names is
-- refused, at the root "/" every absolute path of names is, and at the root ".." a request for "../../n", where n is a
-- name, is granted as it stands, although it lies outside of the root.
pub prefixed-roots :
    (n : Bytes) (ns : List Bytes)
    → All IsName (n ∷ ns)
    → (prefixed (codes ".") (join_slash (n ∷ ns)) ≡ none)
      × (prefixed (slash ∷ []) (slash ∷ join_slash (n ∷ ns)) ≡ none)
      × (prefixed dot_dot (codes "../../" ++ n) ≡ some (codes "../../" ++ n))
prefixed-roots n ns h = (prefixed_dot n ns h, prefixed-slash n ns h, prefixed-dot_dot n h.0)
