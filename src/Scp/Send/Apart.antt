-- ===== src/Scp/Send/Apart.antt =====
-- Where the tests of `Append` fail: the paths of directories as prefixes of other paths.
use wish.Base.{
  Bytes, List, [], ◌∷◌, ◌++◌, Bool, true, false, bytes_eq, bytes_eq_iff, has_prefix,
  has_prefix-append, ◌≡◌, refl, arith, ◌∙◌, ap, sym, All, All-append, Lacks, has_byte-Lacks,
  append-nil, append_assoc, Bool-cases, inl, inr, ◌==◌, ◌&&◌,
}
use wish.FilePath.{slash, IsName, render, slashed, clean}
use wish.FilePath.Laws.{clean-render}
use wish.Scp.Entry.{FileEntry, DirInfo, Entry, Entries, file, dir, nil, cons}
use wish.Scp.Send.{snoc, append_in}
use wish.Scp.FileSystem.Prefixed.{render-append}

-- What stands in front of a name that is put behind a path.
abbrev stem : Bool → List Bytes → Bytes
stem true [] = slash ∷ []
stem false [] = []
stem r (p ∷ ps) = render r (p ∷ ps) ++ slash ∷ []

render-stem :
    (r : Bool) (ns : List Bytes) (n : Bytes) (ks : List Bytes)
    → render r (ns ++ n ∷ ks) ≡ stem r ns ++ (n ++ slashed ks)
render-stem true [] n ks = refl
render-stem false [] n ks = refl
render-stem r (p ∷ ps) n ks = render-append r p n ps ks

has_prefix_both : (a s t : Bytes) → has_prefix (a ++ s) (a ++ t) ≡ has_prefix s t
unfolding has_prefix
has_prefix_both [] s t = refl
has_prefix_both (c ∷ a) s t = ground (arith, has_prefix_both a s t)

has_prefix_name :
    (n : Bytes) (ks : List Bytes) (m : Bytes)
    → Lacks slash m
    → has_prefix (n ++ slashed ks) m ≡ has_prefix n m
unfolding has_prefix
has_prefix_name n ks [] h = refl
has_prefix_name [] [] (c ∷ m) h = refl
has_prefix_name [] (k ∷ ks) (c ∷ m) (n, h) = ground (arith, n)
has_prefix_name (d ∷ n) ks (c ∷ m) (l, h) = ap (λ b. (d == c) && b) (has_prefix_name n ks m h)

-- A name behind a path is a prefix of a longer one just where the names are.
pub has_prefix-render :
    (r : Bool) (ns : List Bytes) (n m : Bytes) (ks : List Bytes)
    → IsName m
    → has_prefix (render r (ns ++ n ∷ ks)) (render r (ns ++ m ∷ [])) ≡ has_prefix n m
has_prefix-render r ns n m ks k =
    rw (render-stem r ns n ks, render-stem r ns m [], append-nil m)
      (has_prefix_both (stem r ns) (n ++ slashed ks) m
        ∙ has_prefix_name n ks m (has_byte-Lacks slash m k.no_slash))

-- No path below a path is a prefix of it.
pub has_prefix_below :
    (r : Bool) (p : Bytes) (ps : List Bytes) (m : Bytes) (ms : List Bytes)
    → has_prefix (render r (p ∷ ps)) (render r ((p ∷ ps) ++ m ∷ ms)) ≡ false
has_prefix_below r p ps m ms = rw (render-append r p m ps ms) (
    ap (λ x. has_prefix x ((render r (p ∷ ps) ++ slash ∷ []) ++ (m ++ slashed ms)))
      (sym (append-nil (render r (p ∷ ps))))
    ∙ ap (λ y. has_prefix (render r (p ∷ ps) ++ []) y)
        (append_assoc (render r (p ∷ ps)) (slash ∷ []) (m ++ slashed ms))
    ∙ has_prefix_both (render r (p ∷ ps)) [] (slash ∷ (m ++ slashed ms))
    ∙ (unfold has_prefix in refl))

-- No name behind a path is a prefix of that path.
pub has_prefix-parent :
    (r : Bool) (ns : List Bytes) (m : Bytes)
    → IsName m
    → has_prefix (render r ns) (render r (ns ++ m ∷ [])) ≡ false
has_prefix-parent r (p ∷ ps) m k = has_prefix_below r p ps m []
has_prefix-parent true [] [] k = unfold bytes_eq in absurd (cc (k.nonempty))
has_prefix-parent true [] (c ∷ m) k = unfold has_prefix in refl
has_prefix-parent false [] [] k = unfold bytes_eq in absurd (cc (k.nonempty))
has_prefix-parent false [] (c ∷ []) k =
    unfold bytes_eq has_prefix in (let e = k.not_dot in ground (arith, e))
has_prefix-parent false [] (c ∷ d ∷ m) k = unfold has_prefix in ground arith

-- The directories of a list that stand in front of the entries `later`: each lies in the directory
-- `render r ns` under its name, and its name is no prefix of that of a later directory.
unfoldable pub Clear : Bytes → Entries → Type 0
unfolding has_prefix
Clear n nil = Unit
Clear n (cons (file f) es) = Clear n es
Clear n (cons (dir d cs) es) = (has_prefix d.name n ≡ false) × Clear n es

unfoldable pub Beside : Bool → List Bytes → (later done : Entries) → Type 0
unfolding Clear
Beside r ns later nil = Unit
Beside r ns later (cons (file f) es) = Beside r ns later es
Beside r ns later (cons (dir d cs) es) =
    (d.filepath ≡ render r (ns ++ d.name ∷ []))
    × IsName d.name
    × Clear d.name later
    × Beside r ns later es

-- The loop of `Append` passes every entry of the list by.
unfoldable pub Skips : Bytes → Entries → Type 0
unfolding bytes_eq has_prefix
Skips p nil = Unit
Skips p (cons (file f) es) = Skips p es
Skips p (cons (dir d cs) es) =
    (bytes_eq d.filepath p ≡ false) × (has_prefix p (clean d.filepath) ≡ false) × Skips p es

pub no_prefix-differs : (p d : Bytes) → has_prefix p d ≡ false → bytes_eq d p ≡ false
no_prefix-differs p d h = elim (Bool-cases (bytes_eq d p)) [
  | inr e ↦ e
  | inl e ↦
      let q : d ≡ p = (bytes_eq_iff d p).0 e in
      let t : has_prefix p d ≡ true =
        ap (λ x. has_prefix p x) q ∙ (rw append-nil at (has_prefix-append p [])) in
      absurd (cc (h, t))
]

module _ (r : Bool) (ns : List Bytes) (names : All IsName ns) where
  skipped :
      (p : Bytes) (d : DirInfo) (cs es : Entries)
      → d.filepath ≡ render r (ns ++ d.name ∷ [])
      → IsName d.name
      → has_prefix p (render r (ns ++ d.name ∷ [])) ≡ false
      → Skips p es
      → Skips p (cons (dir d cs) es)
  unfolding Skips
  skipped p d cs es e k h hs =
      let c : clean d.filepath ≡ d.filepath =
        ap clean e
        ∙ clean-render r (ns ++ d.name ∷ []) (All-append IsName ns (d.name ∷ []) names (k, tt))
        ∙ sym e in
      let h' : has_prefix p d.filepath ≡ false = ap (λ x. has_prefix p x) e ∙ h in
      (no_prefix-differs p d.filepath h', ap (λ x. has_prefix p x) c ∙ h', hs)

  pub Beside-Skips : (later done : Entries) → Beside r ns later done → Skips (render r ns) done
  unfolding Beside Skips
  Beside-Skips later nil h = tt
  Beside-Skips later (cons (file f) es) h = Beside-Skips later es h
  Beside-Skips later (cons (dir d cs) es) (e, k, c, h) =
      skipped (render r ns) d cs es e k (has_prefix-parent r ns d.name k) (Beside-Skips later es h)

  pub Beside-Skips_below :
      (d : DirInfo) (cs later done : Entries) (ks : List Bytes)
      → Beside r ns (cons (dir d cs) later) done
      → Skips (render r (ns ++ d.name ∷ ks)) done
  unfolding Beside Clear Skips
  Beside-Skips_below d cs later nil ks h = tt
  Beside-Skips_below d cs later (cons (file f) es) ks h = Beside-Skips_below d cs later es ks h
  Beside-Skips_below d cs later (cons (dir g bs) es) ks (e, k, (c, cl), h) =
      skipped (render r (ns ++ d.name ∷ ks)) g bs es e k
        (has_prefix-render r ns d.name g.name ks k ∙ c) (Beside-Skips_below d cs later es ks h)

module _ (r : Bool) (ns : List Bytes) where
  pub Beside-file :
      (f : FileEntry) (later done : Entries)
      → Beside r ns (cons (file f) later) done
      → Beside r ns later (snoc done (file f))
  unfolding Beside Clear snoc
  Beside-file f later nil h = tt
  Beside-file f later (cons (file g) es) h = Beside-file f later es h
  Beside-file f later (cons (dir d cs) es) (e, k, c, h) = (e, k, c, Beside-file f later es h)

  pub Beside-dir :
      (d : DirInfo) (cs bs later done : Entries)
      → d.filepath ≡ render r (ns ++ d.name ∷ [])
      → IsName d.name
      → Clear d.name later
      → Beside r ns (cons (dir d cs) later) done
      → Beside r ns later (snoc done (dir d bs))
  unfolding Beside Clear snoc
  Beside-dir d cs bs later nil e k c h = (e, k, c, tt)
  Beside-dir d cs bs later (cons (file g) es) e k c h = Beside-dir d cs bs later es e k c h
  Beside-dir d cs bs later (cons (dir g xs) es) e k c (e', k', (x, c'), h) =
      (e', k', c', Beside-dir d cs bs later es e k c h)

-- An entry that no entry of the list takes goes to its end.
pub append_in-Skips :
    (p : Bytes) (e : Entry) (es : Entries) → Skips p es → append_in p e es ≡ snoc es e
unfolding append_in snoc Skips
append_in-Skips p e nil h = refl
append_in-Skips p e (cons (file f) es) h = ap (cons (file f)) (append_in-Skips p e es h)
append_in-Skips p e (cons (dir d cs) es) (a, b, h) =
    rw (a, b) (ap (cons (dir d cs)) (append_in-Skips p e es h))

-- One that the directory at its end takes goes into that.
pub append_in_last :
    (p : Bytes) (e : Entry) (d : DirInfo) (cs es : Entries)
    → Skips p es
    → has_prefix p (clean d.filepath) ≡ true
    → (bytes_eq d.filepath p ≡ true → Skips p cs)
    → append_in p e (snoc es (dir d cs)) ≡ snoc es (dir d (append_in p e cs))
unfolding append_in snoc Skips
append_in_last p e d cs nil h t s = elim (Bool-cases (bytes_eq d.filepath p)) [
  | inl a ↦ rw a (ap (λ x. cons (dir d x) nil) (sym (append_in-Skips p e cs (s a))))
  | inr a ↦ rw (a, t) refl
]
append_in_last p e d cs (cons (file f) es) h t s =
    ap (cons (file f)) (append_in_last p e d cs es h t s)
append_in_last p e d cs (cons (dir g bs) es) (a, b, h) t s =
    rw (a, b) (ap (cons (dir g bs)) (append_in_last p e d cs es h t s))
