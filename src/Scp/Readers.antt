-- ===== src/Scp/Readers.antt =====
-- The handlers of the repository that `copyToClient` can be given: the one over an fs.FS (scp/fs.go), and
-- the file system handler (scp/filesystem.go). Their state is the number of the files that they hold
-- open; a closing function is `f.Close`.
pub mod Served
pub mod Kept
pub mod Tests
use wish.Base.{ℕ, suc, ◌-◌, Bytes, List, [], Option, none, some, false}
use wish.FilePath.{clean}
use wish.Scp.Entry.{FileEntry, DirInfo}
use wish.Scp.Send.{Visit, Opened, CopyToClientHandler, normalize_path}
use wish.Scp.FileSystem.Reads.{
  Read, got, not_read, Disk, dir_at, file_at, glob, walk_dir, new_dir_entry, new_file_entry,
}

-- Where a function returns an error, the entry beside it is nil.
abbrev pub no_file : FileEntry
no_file = record {
  name = [];
  filepath = [];
  mode = 0;
  size = 0;
  contents = [];
  broken = false;
  atime = 0;
  mtime = 0;
}

abbrev pub no_dir : DirInfo
no_dir = record { name = []; filepath = []; mode = 0; atime = 0; mtime = 0 }

abbrev pub opened_as : ℕ → Read FileEntry → Opened ℕ
opened_as n (got e) = record { state = suc n; closer = some (λ m. m - 1); entry = e; failed = none }
opened_as n (not_read x) = record { state = n; closer = none; entry = no_file; failed = some x }

abbrev pub dir_as : ℕ → Read DirInfo → ℕ × (DirInfo × Option Bytes)
dir_as n (got d) = (n, (d, none))
dir_as n (not_read x) = (n, (no_dir, some x))

abbrev pub matches_as : ℕ → Read (List Bytes) → ℕ × (List Bytes × Option Bytes)
matches_as n (got ms) = (n, (ms, none))
matches_as n (not_read x) = (n, ([], some x))

-- A handler whose methods are these four functions.
abbrev pub handler_of :
    (Bytes → Read (List Bytes))
    → (Bytes → List Visit × Option Bytes)
    → (Bytes → Read DirInfo)
    → (Bytes → Read FileEntry)
    → CopyToClientHandler ℕ
handler_of g w d f = record {
  glob = λ p n. matches_as n (g p);
  walk_dir = λ p n. w p;
  new_dir_entry = λ p n. dir_as n (d p);
  new_file_entry = λ p n. opened_as n (f p);
}

-- scp/fs.go: the fs.FS is a `Disk`. `NewDirEntry` normalizes its path, `NewFileEntry` does not.
unfoldable pub fs_new_dir_entry : Disk → Bytes → Read DirInfo
fs_new_dir_entry fsys path = dir_at fsys [] (normalize_path path)

unfoldable pub fs_new_file_entry : Disk → Bytes → Read FileEntry
fs_new_file_entry fsys path = file_at fsys [] path

-- `NewFSReadHandler`
unfoldable pub new_fs_read_handler : Disk → CopyToClientHandler ℕ
new_fs_read_handler fsys =
    handler_of fsys.glob fsys.walk_dir (fs_new_dir_entry fsys) (fs_new_file_entry fsys)

-- `NewFileSystemHandler`, as a handler of what is copied to a client
unfoldable pub file_system_reader : Disk → Bytes → CopyToClientHandler ℕ
file_system_reader disk root =
    handler_of (glob disk (clean root)) (walk_dir disk (clean root))
      (new_dir_entry disk (clean root)) (new_file_entry disk (clean root))
