-- ===== src/Scp/Send/Misplaced.antt =====
-- Where `Append` puts an entry of a directory whose name another directory's name begins.
use wish.Base.{
  Bytes, List, [], ◌∷◌, ◌++◌, Bool, true, false, bytes_eq, bytes_eq_iff, has_prefix,
  has_prefix-append, ◌≡◌, refl, ◌∙◌, ap, sym, All, All-append, append-nil, append_assoc, arith,
  Bool-cases, inl, inr,
}
use wish.FilePath.{IsName, render, clean}
use wish.FilePath.Laws.{clean-render}
use wish.Scp.Entry.{DirInfo, Entry, Entries, dir, cons}
use wish.Scp.Send.{path_of, append_in, append_entry}
use wish.Scp.Send.Apart.{has_prefix-render}
use wish.Scp.Send.Rebuilt.{append_entry-parent}

longer : (n x : Bytes) → bytes_eq x [] ≡ false → has_prefix n (n ++ x) ≡ false
unfolding has_prefix bytes_eq
longer [] [] h = absurd (cc h)
longer [] (c ∷ x) h = refl
longer (c ∷ n) x h = ground (arith, longer n x h)

-- The directory "n" is not the parent.
differs :
    (r : Bool) (ns : List Bytes) (n x : Bytes) (d : DirInfo)
    → IsName (n ++ x)
    → bytes_eq x [] ≡ false
    → d.filepath ≡ render r (ns ++ n ∷ [])
    → bytes_eq d.filepath (render r (ns ++ (n ++ x) ∷ [])) ≡ false
differs r ns n x d j ne p =
    elim (Bool-cases (bytes_eq d.filepath (render r (ns ++ (n ++ x) ∷ [])))) [
      | inr e ↦ e
      | inl e ↦
          let q = (bytes_eq_iff d.filepath (render r (ns ++ (n ++ x) ∷ []))).0 e in
          let f : has_prefix (render r (ns ++ n ∷ [])) (render r (ns ++ (n ++ x) ∷ [])) ≡ false =
            has_prefix-render r ns n (n ++ x) [] j ∙ longer n x ne in
          let t : has_prefix (render r (ns ++ n ∷ [])) (render r (ns ++ n ∷ [])) ≡ true =
            (rw append-nil at (has_prefix-append (render r (ns ++ n ∷ [])) [])) in
          absurd (cc (f, t, ap (λ y. has_prefix (render r (ns ++ n ∷ [])) y) (sym p ∙ q)))
    ]

-- Beside a directory "n", the entries of a later directory "nx", with one or more bytes `x`, are appended
-- to the children of "n" or to a directory below it, and "nx" gets none of them.
pub append_entry_misplaced :
    (r : Bool) (ns : List Bytes) (n x k : Bytes) (d d' : DirInfo) (cs cs' es : Entries) (e : Entry)
    → All IsName ns
    → IsName n
    → IsName (n ++ x)
    → IsName k
    → bytes_eq x [] ≡ false
    → d.filepath ≡ render r (ns ++ n ∷ [])
    → path_of e ≡ render r (ns ++ (n ++ x) ∷ k ∷ [])
    → append_entry e (cons (dir d cs) (cons (dir d' cs') es))
      ≡ cons (dir d (append_in (render r (ns ++ (n ++ x) ∷ [])) e cs)) (cons (dir d' cs') es)
unfolding append_in
append_entry_misplaced r ns n x k d d' cs cs' es e names i j l ne p q =
    let parent = render r (ns ++ (n ++ x) ∷ []) in
    let cleaned : clean d.filepath ≡ render r (ns ++ n ∷ []) =
      ap clean p ∙ clean-render r (ns ++ n ∷ []) (All-append IsName ns (n ∷ []) names (i, tt)) in
    let begins : has_prefix parent (clean d.filepath) ≡ true =
      ap (λ y. has_prefix parent y) cleaned
      ∙ has_prefix-render r ns (n ++ x) n [] i
      ∙ has_prefix-append n x in
    append_entry-parent r (ns ++ (n ++ x) ∷ []) k e (cons (dir d cs) (cons (dir d' cs') es))
      (All-append IsName ns ((n ++ x) ∷ []) names (j, tt)) l
      (q ∙ ap (render r) (sym (append_assoc ns ((n ++ x) ∷ []) (k ∷ []))))
    ∙ rw (differs r ns n x d j ne p, begins, append_in) refl
