-- ===== src/Scp/FileSystem.antt =====
-- scp/filesystem.go: the handler that serves a directory. The operating system is a parameter
-- (`Os`): its calls take the paths that the handler hands them. Every call that takes a path is noted
-- in the order in which it is made, so that what the handler touches can be stated.
pub mod Prefixed
pub mod Confined
pub mod Roots
pub mod Reads
pub mod Stores
pub mod Tree
pub mod Tests
use wish.Base.{
  ℕ, zero, suc, ◌+◌, Bytes, codes, List, [], ◌∷◌, ◌++◌, Bool, true, false, ◌||◌, not, Option, none,
  some, ◌==◌, bytes_eq, has_prefix, if◌then◌else◌, length,
}
use wish.FilePath.{slash, clean, join}
use wish.Scp.Entry.{DirInfo}
use wish.Scp.Stream.{Status, fine, eof, failed}
use wish.Scp.Receive.{
  FileInfo, Outcome, wrote, refused, Program, finish, ask, CopyFromClientHandler,
}

-- `prefixed` returns the path, or the error of a path that resolves outside the root.
unfoldable pub is_under : Bytes → Bytes → Bool
unfolding bytes_eq has_prefix
is_under root p = bytes_eq p root || has_prefix p (root ++ slash ∷ [])

unfoldable pub prefixed : Bytes → Bytes → Option Bytes
prefixed root path =
    if is_under root (clean path)
    then some (clean path)
    else if is_under root (join root (clean (slash ∷ path)))
    then some (join root (clean (slash ∷ path)))
    else none

-- The calls that the handler makes.
pub data Call : Type 0 where
  chtimes_call mkdir_call open_call stat_call glob_call walk_call : Bytes → Call

-- The operating system: whether a call fails, by its error, and what it does to the disk.
pub record Os (D : Type 0) : Type 0 where
  pub chtimes : Bytes → (atime mtime : ℕ) → D → D × Option Bytes
  pub mkdir : Bytes → ℕ → D → D × Option Bytes
  pub open_file : Bytes → ℕ → D → D × Option Bytes
  pub write : Bytes → Bytes → D → D × Option Bytes
  pub close : Bytes → D → D × Option Bytes

pub record State (D : Type 0) : Type 0 where
  pub disk : D
  pub calls : List Call

abbrev pub traversal : Bytes
traversal = codes "path traversal detected"

-- The buffer of `io.Copy`.
abbrev pub buffer_size : ℕ
buffer_size = 32768

module _ {D : Type 0} (os : Os D) (root : Bytes) where
  abbrev pub called : Call → State D → D × Option Bytes → State D × Option Bytes
  called k s (d, e) = (record { disk = d; calls = s.calls ++ k ∷ [] }, e)

  abbrev pub chtimes_at : Option Bytes → (mtime atime : ℕ) → State D → State D × Option Bytes
  chtimes_at none m a s = (s, some traversal)
  chtimes_at (some p) m a s = called (chtimes_call p) s (os.chtimes p a m s.disk)

  -- `chtimes`: nothing is set unless both times are known.
  unfoldable pub chtimes : Bytes → (mtime atime : ℕ) → State D → State D × Option Bytes
  unfolding prefixed
  chtimes path m a s =
      if (m == 0) || (a == 0) then (s, none) else chtimes_at (prefixed root path) m a s

  abbrev pub then_times :
      Bytes → (mtime atime : ℕ) → State D × Option Bytes → State D × Option Bytes
  then_times path m a (s, none) = chtimes path m a s
  then_times path m a (s, some e) = (s, some e)

  abbrev pub mkdir_at : Option Bytes → DirInfo → State D → State D × Option Bytes
  mkdir_at none d s = (s, some traversal)
  mkdir_at (some p) d s =
      then_times d.filepath d.mtime d.atime (called (mkdir_call p) s (os.mkdir p d.mode s.disk))

  -- `Mkdir`
  unfoldable pub mkdir : DirInfo → State D → State D × Option Bytes
  unfolding prefixed chtimes
  mkdir d s = mkdir_at (prefixed root d.filepath) d s

  -- `return written, h.chtimes(...)`: an error of `chtimes` is the error of the whole.
  abbrev pub closed : FileInfo → ℕ → State D × Option Bytes → Program (State D)
  closed i n (s, none) = finish s (wrote n)
  closed i n (s, some e) = finish s (refused e)

  abbrev pub copied : FileInfo → Bytes → ℕ → State D → D × Option Bytes → Program (State D)
  copied i p n s (d, some e) = finish (record s { disk = d }) (refused e)
  copied i p n s (d, none) =
      closed i n (then_times i.filepath i.mtime i.atime (record s { disk = d }, none))

  abbrev pub stored :
      (ℕ → State D → Program (State D))
      → FileInfo
      → Bytes
      → ℕ
      → State D
      → D × Option Bytes
      → Program (State D)
  stored more i p n s (d, some e) = finish (record s { disk = (os.close p d).0 }) (refused e)
  stored more i p n s (d, none) = more n (record s { disk = d })

  -- `io.Copy(f, entry.Reader)` and what follows it, the deferred `Close` of the error paths included
  -- (behind the first `Close` the deferred one finds the file closed): read a buffer, write it, until EOF. A read
  -- delivers a byte at least, so one round more than there are bytes is enough.
  unfoldable pub copy_loop : ℕ → FileInfo → Bytes → ℕ → State D → Program (State D)
  unfolding chtimes
  copy_loop zero i p n s = finish s (refused (codes "out of fuel"))
  copy_loop (suc fuel) i p n s = ask buffer_size (λ b status. elim status [
    | fine ↦ stored (copy_loop fuel i p) i p (n + length b) s (os.write p b s.disk)
    | eof ↦ copied i p n s (os.close p s.disk)
    | failed ↦ finish (record s { disk = (os.close p s.disk).0 }) (refused (codes "read"))
  ])

  abbrev pub opened : FileInfo → Bytes → State D × Option Bytes → Program (State D)
  opened i p (s, none) = copy_loop (suc i.size) i p 0 s
  opened i p (s, some e) = finish s (refused e)

  abbrev pub write_at : Option Bytes → FileInfo → State D → Program (State D)
  write_at none i s = finish s (refused traversal)
  write_at (some p) i s = opened i p (called (open_call p) s (os.open_file p i.mode s.disk))

  -- `Write`
  unfoldable pub write : FileInfo → State D → Program (State D)
  unfolding prefixed copy_loop
  write i s = write_at (prefixed root i.filepath) i s

  abbrev pub file_system_handler : CopyFromClientHandler (State D)
  file_system_handler = record { mkdir = mkdir; write = write }

-- `NewFileSystemHandler`
abbrev pub new_file_system_handler : {D : Type 0} → Os D → Bytes → CopyFromClientHandler (State D)
new_file_system_handler os root = file_system_handler os (clean root)
