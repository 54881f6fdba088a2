-- ===== src/Scp/FileSystem/Reads/Inside.antt =====
-- What is read lies in the root.
use wish.Base.{
  Bytes, List, [], ◌∷◌, ◌++◌, Bool, Option, bytes_eq, bytes_eq_iff, ◌≡◌, ◌≢◌, refl, sym, ap, All,
  Bool-cases, Option-cases, inl, inr,
}
use wish.FilePath.{IsName, render}
use wish.Scp.Entry.{FileEntry}
use wish.Scp.Send.{Visit}
use wish.Scp.FileSystem.Prefixed.{Below, prefixed-Below}
use wish.Scp.FileSystem.Reads.{FileStat, Read, got, not_read, Disk, served, file_at, new_file_entry}

abbrev filepath_or : Bytes → Read FileEntry → Bytes
filepath_or q (got e) = e.filepath
filepath_or q (not_read x) = q

module _ (disk : Disk) (r : Bool) (p : Bytes) (ns : List Bytes) where
  abbrev root : Bytes
  root = render r (p ∷ ns)

  file_at_path :
      (q : Bytes) (x : Read FileStat) (y : Read (Bytes × Bool)) (e : FileEntry)
      → disk.stat q ≡ x
      → disk.contents q ≡ y
      → file_at disk root q ≡ got e
      → e.filepath ≡ q
  file_at_path q (got i) (got b) e f g h = sym (ap (filepath_or q) (rw (f, g) at h))
  file_at_path q (got i) (not_read x) e f g h = absurd (cc (rw (f, g) at h))
  file_at_path q (not_read x) y e f g h = absurd (cc (rw f at h))

  -- The entry that `NewFileEntry` returns has a path in the root, if the root is a cleaned path of one or
  -- more names.
  pub new_file_entry-Below :
      (name : Bytes) (e : FileEntry)
      → All IsName (p ∷ ns)
      → new_file_entry disk root name ≡ got e
      → Below r (p ∷ ns) e.filepath
  unfolding new_file_entry
  new_file_entry-Below name e names h =
      let (ms, f, k) = prefixed-Below r p ns name names in
      let q = render r ((p ∷ ns) ++ ms) in
      (ms, file_at_path q (disk.stat q) (disk.contents q) e refl refl (rw f at h), k)

  -- No visit of the root itself reaches the caller of `WalkDir`.
  pub served-no_root :
      (vs : List Visit) (e : Option Bytes) → All (λ v. v.path ≢ root) (served disk root vs e).0
  unfolding served
  served-no_root [] e = tt
  served-no_root (v ∷ vs) e = elim (Bool-cases (bytes_eq v.path root)) [
    | inl h ↦ elim (Option-cases v.failed) [
      | inl n ↦ rw (h, n) (served-no_root vs e)
      | inr (x, f) ↦ rw (h, f) tt
    ]
    | inr h ↦ rw h ((λ k. cc (h, (bytes_eq_iff v.path root).1 k)), served-no_root vs e)
  ]
