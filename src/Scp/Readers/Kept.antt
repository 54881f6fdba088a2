-- ===== src/Scp/Readers/Kept.antt =====
-- The file system handler over a disk that keeps a tree is a handler that holds it.
use wish.Base.{
  subst, has_byte, ℕ, Bytes, List, [], ◌∷◌, ◌++◌, map, true, false, none, some, bytes_eq,
  has_prefix, ◌≡◌, refl, ◌∙◌, ap, sym, All, All-append, All-append_left, All-append_right,
  append_assoc, arith,
}
use wish.FilePath.{slash, IsName, render, clean, join, slashed}
use wish.FilePath.Laws.{clean-render, join-render_names}
use wish.Scp.Entry.{FileEntry, DirInfo, Entries, file, dir, nil, cons}
use wish.Scp.Entry.Encode.{AllReadable, Readable}
use wish.Scp.Info.{Info}
use wish.Scp.FileSystem.{is_under, prefixed}
use wish.Scp.FileSystem.Prefixed.{is_under_names}
use wish.Scp.FileSystem.Reads.{
  got, Disk, safe_matches, glob, served, walk_dir, new_dir_entry, new_file_entry,
}
use wish.Scp.Send.Kept.{Item, a_file, a_dir, items_of, items}
use wish.Scp.Send.Apart.{has_prefix_below, no_prefix-differs}
use wish.Scp.Send.Rebuilt.{Placed, PlacedEntry}
use wish.Scp.Send.Whole.{visit_of, Gives, Holds}
use wish.Scp.Readers.{file_system_reader}

abbrev path_at : Item → Bytes
path_at (a_file f) = f.filepath
path_at (a_dir d) = d.filepath

visited : (x : Item) → (visit_of x).path ≡ path_at x
visited (a_file f) = refl
visited (a_dir d) = refl

-- What the disk gives for the paths of the tree; times are those of the last change.
abbrev pub Stored : Disk → Item → Type 0
Stored disk (a_file f) =
    (disk.stat f.filepath
      ≡ got (record { name = f.name; mode = f.mode; size = f.size; mod_time = f.mtime }))
    × (disk.contents f.filepath ≡ got (f.contents, false))
    × (f.broken ≡ false)
    × (f.atime ≡ f.mtime)
Stored disk (a_dir d) =
    (n : ℕ) × (disk.stat d.filepath
      ≡ got (record { name = d.name; mode = d.mode; size = n; mod_time = d.mtime }))
    × (d.atime ≡ d.mtime)

-- A path below `ns`, by one name or more.
abbrev Inside : List Bytes → Bytes → Type 0
Inside ns q =
    (m : Bytes) × (ms : List Bytes) × (q ≡ render true (ns ++ m ∷ ms)) × IsName m × All IsName ms

inside :
    (ns ks : List Bytes) (n : Bytes) (q : Bytes)
    → All IsName ks
    → IsName n
    → q ≡ render true ((ns ++ ks) ++ n ∷ [])
    → Inside ns q
inside ns [] n q h i e = (n, [], e ∙ ap (render true) (append_assoc ns [] (n ∷ [])), i, tt)
inside ns (k ∷ ks) n q (j, h) i e = (
  k,
  ks ++ n ∷ [],
  e ∙ ap (render true) (append_assoc ns (k ∷ ks) (n ∷ [])),
  j,
  All-append IsName ks (n ∷ []) h (i, tt),
)

Placed-Inside :
    (ns ks : List Bytes) (es : Entries)
    → All IsName ks
    → Placed true (ns ++ ks) es
    → All (λ x. Inside ns (path_at x)) (items es)
unfolding Placed PlacedEntry items items_of
Placed-Inside ns ks nil h p = tt
Placed-Inside ns ks (cons (file f) es) h ((p, i), ps) =
    (inside ns ks f.name f.filepath h i p, Placed-Inside ns ks es h ps)
Placed-Inside ns ks (cons (dir d cs) es) h ((p, i, qs), c, ps) =
    let qs' : Placed true (ns ++ (ks ++ d.name ∷ [])) cs =
      subst (λ ms. Placed true ms cs) (append_assoc ns ks (d.name ∷ [])) qs in
    (
      inside ns ks d.name d.filepath h i p,
      All-append (λ x. Inside ns (path_at x)) (items cs) (items es)
          (Placed-Inside ns (ks ++ d.name ∷ []) cs (All-append IsName ks (d.name ∷ []) h (i, tt))
            qs')
          (Placed-Inside ns ks es h ps),
    )

relative-outside : (x l y : Bytes) → IsName l → is_under (slash ∷ x) (l ++ y) ≡ false
unfolding is_under bytes_eq has_prefix has_byte
relative-outside x [] y i = absurd (cc (i.nonempty))
relative-outside x (c ∷ l) y i = let e = i.no_slash in ground (arith, e)

same_file :
    (f : FileEntry)
    → f.broken ≡ false
    → f.atime ≡ f.mtime
    → record {
      name = f.name;
      filepath = f.filepath;
      mode = f.mode;
      size = f.size;
      contents = f.contents;
      broken = false;
      atime = f.mtime;
      mtime = f.mtime;
    }
      ≡ f
same_file f w t j = record {
  name = f.name;
  filepath = f.filepath;
  mode = f.mode;
  size = f.size;
  contents = f.contents;
  broken = sym w j;
  atime = sym t j;
  mtime = f.mtime;
}

same_dir :
    (d : DirInfo)
    → d.atime ≡ d.mtime
    → record {
      name = d.name;
      filepath = d.filepath;
      mode = d.mode;
      atime = d.mtime;
      mtime = d.mtime;
    }
      ≡ d
same_dir d t j = record {
  name = d.name;
  filepath = d.filepath;
  mode = d.mode;
  atime = sym t j;
  mtime = d.mtime;
}

module _ (disk : Disk) (p : Bytes) (ns : List Bytes) (names : All IsName (p ∷ ns)) where
  abbrev root : Bytes
  root = render true (p ∷ ns)

  -- A path in the root stays as it is.
  prefixed-Inside : (q : Bytes) → Inside (p ∷ ns) q → prefixed root q ≡ some q
  unfolding prefixed
  prefixed-Inside q (m, ms, e, i, h) =
      let c : clean q ≡ render true ((p ∷ ns) ++ m ∷ ms) =
        ap clean e
        ∙ clean-render true ((p ∷ ns) ++ m ∷ ms)
            (All-append IsName (p ∷ ns) (m ∷ ms) names (i, h)) in
      rw (c, is_under_names true p ns (m ∷ ms)) (ap some (sym e))

  -- A relative path is one in the root.
  prefixed_relative :
      (l : Bytes) (ls : List Bytes)
      → IsName l
      → All IsName ls
      → prefixed root (render false (l ∷ ls)) ≡ some (render true ((p ∷ ns) ++ l ∷ ls))
  unfolding prefixed
  prefixed_relative l ls i h =
      let c = clean-render false (l ∷ ls) (i, h) in
      let c' : clean (slash ∷ render false (l ∷ ls)) ≡ render true (l ∷ ls) =
        clean-render true (l ∷ ls) (i, h) in
      let below : is_under root (join root (clean (slash ∷ render false (l ∷ ls)))) ≡ true =
        ap (λ q. is_under root (join root q)) c'
        ∙ ap (is_under root) (join-render_names true (p ∷ ns) (l ∷ ls) names (i, h))
        ∙ is_under_names true p ns (l ∷ ls) in
      rw (c, relative-outside (p ++ slashed ns) l (slashed ls) i, below)
        (ap (λ q. some (join root q)) c'
          ∙ ap some (join-render_names true (p ∷ ns) (l ∷ ls) names (i, h)))

  Stored-Gives :
      (x : Item)
      → Inside (p ∷ ns) (path_at x)
      → Stored disk x
      → Gives (file_system_reader disk root) x
  unfolding file_system_reader new_file_entry new_dir_entry
  Stored-Gives (a_file f) b (s, c, w, t) = λ n.
      rw (clean-render true (p ∷ ns) names, prefixed-Inside f.filepath b, s, c)
        (refl, same_file f w t)
  Stored-Gives (a_dir d) b (k, s, t) = λ n.
      rw (clean-render true (p ∷ ns) names, prefixed-Inside d.filepath b, s)
        (n, ap (λ x. (n, (x, none))) (same_dir d t))

  -- No visit below the root is kept from the caller.
  served-visits :
      (xs : List Item)
      → All (λ x. Inside (p ∷ ns) (path_at x)) xs
      → served disk root (map visit_of xs) none ≡ (map visit_of xs, none)
  unfolding served
  served-visits [] h = refl
  served-visits (x ∷ xs) ((m, ms, e, i, h), hs) =
      let path : (visit_of x).path ≡ render true ((p ∷ ns) ++ m ∷ ms) = visited x ∙ e in
      let apart : bytes_eq (visit_of x).path root ≡ false =
        no_prefix-differs root (visit_of x).path
          (ap (has_prefix root) path ∙ has_prefix_below true p ns m ms) in
      rw (apart, served-visits xs hs) refl

  -- A directory or file below the root by the names `l` and `ls`, in a directory below the root by the names
  -- `ks`, as the tree `es`: `Glob` at its path finds it and nothing else, `Rel` takes the root off its path, `WalkDir`
  -- visits it and what is in it, and the disk keeps each of the tree's entries at its path.
  pub record Keeps (l : Bytes) (ls ks : List Bytes) (es : Entries) : Type 0 where
    pub named : IsName l × All IsName ls × All IsName ks
    pub globbed :
        disk.glob (render true ((p ∷ ns) ++ l ∷ ls)) ≡ got (render true ((p ∷ ns) ++ l ∷ ls) ∷ [])
    pub relative : disk.rel root (render true ((p ∷ ns) ++ l ∷ ls)) ≡ got (render false (l ∷ ls))
    pub walked : disk.walk_dir (render true ((p ∷ ns) ++ l ∷ ls)) ≡ (map visit_of (items es), none)
    pub stored : All (Stored disk) (items es)
    pub placed : Placed true ((p ∷ ns) ++ ks) es

  all_given :
      (xs : List Item)
      → All (λ x. Inside (p ∷ ns) (path_at x)) xs
      → All (Stored disk) xs
      → All (Gives (file_system_reader disk root)) xs
  all_given [] h k = tt
  all_given (x ∷ xs) (b, h) (s, k) = (Stored-Gives x b s, all_given xs h k)

  -- The file system handler at an absolute root of names holds what the disk keeps below it, for the client that asks
  -- for its path relative to the root.
  pub Keeps-Holds :
      (info : Info) (l : Bytes) (ls ks : List Bytes) (es : Entries)
      → info.recursive ≡ true
      → info.path ≡ render false (l ∷ ls)
      → Keeps l ls ks es
      → Holds (file_system_reader disk root) info (render false (l ∷ ls)) es
  unfolding file_system_reader glob walk_dir safe_matches
  Keeps-Holds info l ls ks es rec asked k =
      let (i, h, j) = k.named in
      let c = clean-render true (p ∷ ns) names in
      let q = prefixed_relative l ls i h in
      let within = Placed-Inside (p ∷ ns) ks es j k.placed in
      record {
        recursive = rec;
        globbed = λ s.
            (s, rw (c, asked, q, k.globbed, is_under_names true p ns (l ∷ ls), k.relative) refl);
        walked = λ s. rw (c, q, k.walked) (served-visits (items es) within);
        given = all_given (items es) within k.stored;
      }

pub Stored-AllReadable :
    (disk : Disk) (es : Entries) → All (Stored disk) (items es) → AllReadable es
unfolding AllReadable Readable items items_of
Stored-AllReadable disk nil h = tt
Stored-AllReadable disk (cons (file f) es) ((s, c, b, t), h) = (b, Stored-AllReadable disk es h)
Stored-AllReadable disk (cons (dir d cs) es) (g, h) = (
  Stored-AllReadable disk cs (All-append_left (Stored disk) (items cs) (items es) h),
  Stored-AllReadable disk es (All-append_right (Stored disk) (items cs) (items es) h),
)
