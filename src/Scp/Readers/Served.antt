-- ===== src/Scp/Readers/Served.antt =====
-- What the handlers of the repository serve, and that they close what they open.
use wish.Base.{ℕ, Bytes, List, ◌∷◌, ◌++◌, Bool, Option, none, All, ◌≡◌, refl, arith}
use wish.FilePath.{IsName, render}
use wish.FilePath.Laws.{clean-render}
use wish.Scp.Entry.{FileEntry, DirInfo, Writer}
use wish.Scp.Info.{Info}
use wish.Scp.Send.{Visit, copy_to_client}
use wish.Scp.Send.Kept.{Item, a_file, a_dir}
use wish.Scp.Send.Closed.{Careful, Opens, copy_to_client-Careful}
use wish.Scp.Send.Given.{Gives, SentOnly, copy_to_client-SentOnly}
use wish.Scp.FileSystem.Prefixed.{Below, prefixed-Below}
use wish.Scp.FileSystem.Reads.{
  FileStat, Read, got, not_read, Disk, dir_at, file_at, new_dir_entry, new_file_entry,
}
use wish.Scp.Readers.{
  opened_as, dir_as, matches_as, handler_of, new_fs_read_handler, file_system_reader,
}

opened_as-Opens : (n : ℕ) (x : Read FileEntry) → Opens (λ m. m) n (opened_as n x)
opened_as-Opens n (got e) = ((λ s m h. omega (arith, h)), omega arith, (λ x h. absurd (cc h)))
opened_as-Opens n (not_read x) = (tt, omega arith, (λ y h. refl))

dir_as-state : (n : ℕ) (x : Read DirInfo) → (dir_as n x).0 ≡ n
dir_as-state n (got d) = refl
dir_as-state n (not_read x) = refl

matches_as-state : (n : ℕ) (x : Read (List Bytes)) → (matches_as n x).0 ≡ n
matches_as-state n (got ms) = refl
matches_as-state n (not_read x) = refl

handler_of-Careful :
    (g : Bytes → Read (List Bytes)) (w : Bytes → List Visit × Option Bytes)
    (d : Bytes → Read DirInfo) (f : Bytes → Read FileEntry)
    → Careful (λ m. m) (handler_of g w d f)
handler_of-Careful g w d f = record {
  glob_keeps = λ p n. matches_as-state n (g p);
  dir_keeps = λ p n. dir_as-state n (d p);
  file_opens = λ p n. opened_as-Opens n (f p);
}

-- `copyToClient` with the handler over an fs.FS, or with the file system handler at any root, leaves no file
-- open, whatever the disk gives, and with whatever error it returns.
pub copy_to_client_closes :
    (disk : Disk) (root : Bytes) (info : Info) (w : Writer) (n : ℕ)
    → ((copy_to_client (new_fs_read_handler disk) info w n).0 ≡ n)
      × ((copy_to_client (file_system_reader disk root) info w n).0 ≡ n)
unfolding new_fs_read_handler file_system_reader
copy_to_client_closes disk root info w n = (
  copy_to_client-Careful (λ m. m) (new_fs_read_handler disk) (handler_of-Careful _ _ _ _) info w n,
  copy_to_client-Careful (λ m. m) (file_system_reader disk root) (handler_of-Careful _ _ _ _) info w
      n,
)

module _ (disk : Disk) (r : Bool) (p : Bytes) (ns : List Bytes) where
  -- A file in the root as the disk has it: its name, mode, size and time, and the bytes that reading it gives
  -- up to its end or to an error; or a directory in the root as the disk has it.
  abbrev pub IsServed : Item → Type 0
  IsServed (a_file f) =
      Below r (p ∷ ns) f.filepath
      × (disk.stat f.filepath
          ≡ got (record { name = f.name; mode = f.mode; size = f.size; mod_time = f.mtime }))
      × (disk.contents f.filepath ≡ got (f.contents, f.broken))
      × (f.atime ≡ f.mtime)
  IsServed (a_dir d) =
      Below r (p ∷ ns) d.filepath
      × ((n : ℕ) × (disk.stat d.filepath
            ≡ got (record { name = d.name; mode = d.mode; size = n; mod_time = d.mtime })))
      × (d.atime ≡ d.mtime)

  file_at-IsServed :
      (q : Bytes) (n : ℕ) (x : Read FileStat) (y : Read (Bytes × Bool))
      → disk.stat q ≡ x
      → disk.contents q ≡ y
      → Below r (p ∷ ns) q
      → (opened_as n (file_at disk (render r (p ∷ ns)) q)).failed ≡ none
      → IsServed (a_file (opened_as n (file_at disk (render r (p ∷ ns)) q)).entry)
  file_at-IsServed q n (not_read x) y e f b h = absurd (cc (rw e at h))
  file_at-IsServed q n (got i) (not_read x) e f b h = absurd (cc (rw (e, f) at h))
  file_at-IsServed q n (got i) (got c) e f b h = rw (e, f) (b, e, f, refl)

  dir_at-IsServed :
      (q : Bytes) (n : ℕ) (x : Read FileStat)
      → disk.stat q ≡ x
      → Below r (p ∷ ns) q
      → (dir_as n (dir_at disk (render r (p ∷ ns)) q)).1.1 ≡ none
      → IsServed (a_dir (dir_as n (dir_at disk (render r (p ∷ ns)) q)).1.0)
  dir_at-IsServed q n (not_read x) e b h = absurd (cc (rw e at h))
  dir_at-IsServed q n (got i) e b h = rw e (b, (i.size, e), refl)

  module _ (names : All IsName (p ∷ ns)) where
    abbrev root : Bytes
    root = render r (p ∷ ns)

    file_given :
        (path : Bytes) (n : ℕ)
        → (opened_as n (new_file_entry disk root path)).failed ≡ none
        → IsServed (a_file (opened_as n (new_file_entry disk root path)).entry)
    unfolding new_file_entry
    file_given path n h =
        let (ms, e, k) = prefixed-Below r p ns path names in
        let q = render r ((p ∷ ns) ++ ms) in
        rw e
          (file_at-IsServed q n (disk.stat q) (disk.contents q) refl refl (ms, refl, k) (rw e at h))

    dir_given :
        (path : Bytes) (n : ℕ)
        → (dir_as n (new_dir_entry disk root path)).1.1 ≡ none
        → IsServed (a_dir (dir_as n (new_dir_entry disk root path)).1.0)
    unfolding new_dir_entry
    dir_given path n h =
        let (ms, e, k) = prefixed-Below r p ns path names in
        let q = render r ((p ∷ ns) ++ ms) in
        rw e (dir_at-IsServed q n (disk.stat q) refl (ms, refl, k) (rw e at h))

    reader-Gives : Gives IsServed (file_system_reader disk root)
    unfolding file_system_reader
    reader-Gives =
        rw (clean-render r (p ∷ ns) names)
          (record { file_given = file_given; dir_given = dir_given })

    -- Whatever the client asks for and wherever `copyToClient` with the file system handler fails, what the
    -- client has been sent is a front part of the encoding of files and directories that lie in the
    -- root, each with the name, mode and time that the disk gives for its path, and each file with the size and
    -- the bytes that it gives there, up to the file's end or to an error. The root is a cleaned path of
    -- one or more names.
    pub copy_to_client-IsServed :
        (info : Info) (w : Writer) (n : ℕ)
        → SentOnly IsServed w (copy_to_client (file_system_reader disk root) info w n).1
    copy_to_client-IsServed info w n =
        copy_to_client-SentOnly IsServed (file_system_reader disk root) reader-Gives info w n
