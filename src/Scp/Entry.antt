-- ===== src/Scp/Entry.antt =====
-- scp/scp.go: the entries that are sent to a client, and how they are written. A file's reader is
-- the bytes that it gives and whether it then fails. The program sends times as they are only if
-- both are positive, so a time before 1970 is 0 here.
pub mod Encode
pub mod Interrupted
use wish.Base.{
  ℕ, suc, ◌+◌, ◌-◌, ◌%◌, Bytes, codes, List, [], ◌∷◌, ◌++◌, Bool, true, false, ◌&&◌, ◌||◌, bytes_eq,
  has_byte, ltb, leb, if◌then◌else◌, Option, none, some, length, take,
}
use wish.Strconv.{format_uint}

pub record FileEntry : Type 0 where
  pub name : Bytes
  pub filepath : Bytes
  pub mode : ℕ
  pub size : ℕ
  pub contents : Bytes
  pub broken : Bool
  pub atime : ℕ
  pub mtime : ℕ

-- A `DirEntry` without its children.
pub record DirInfo : Type 0 where
  pub name : Bytes
  pub filepath : Bytes
  pub mode : ℕ
  pub atime : ℕ
  pub mtime : ℕ

-- `Entry` is a file or a directory with its children; `Entries` is also a `RootEntry`.
mutual
  pub data Entry : Type 0 where
    file : FileEntry → Entry
    dir : DirInfo → Entries → Entry

  pub data Entries : Type 0 where
    nil : Entries
    cons : Entry → Entries → Entries

-- `fs.FileMode.Perm`: the nine permission bits.
abbrev pub perm : ℕ → ℕ
perm mode = mode % 512

unfoldable pub octal_perms : ℕ → Bytes
unfolding format_uint
octal_perms mode = b'0' ∷ format_uint 8 (perm mode)

-- `T<mtime> 0 <atime> 0`, if both times are known.
unfoldable pub times_line : ℕ → ℕ → Bytes
unfolding format_uint
times_line mtime atime =
    if ltb 0 mtime && ltb 0 atime
    then codes "T" ++ format_uint 10 mtime ++ codes " 0 " ++ format_uint 10 atime ++ codes " 0\n"
    else []

unfoldable pub file_line : FileEntry → Bytes
unfolding octal_perms
file_line e =
    codes "C"
    ++ octal_perms e.mode
    ++ codes " "
    ++ format_uint 10 e.size
    ++ codes " "
    ++ e.name
    ++ codes "\n"

unfoldable pub dir_line : DirInfo → Bytes
unfolding octal_perms
dir_line d = codes "D" ++ octal_perms d.mode ++ codes " 0 " ++ d.name ++ codes "\n"

abbrev pub null_byte : Bytes
null_byte = 0 ∷ []

-- The session as a writer: what was sent, and how many bytes it still takes before it fails.
pub record Writer : Type 0 where
  pub sent : Bytes
  pub room : ℕ

pub data WriteError : Type 0 where
  write_file write_dir read_file : Bytes → WriteError

-- A writer and the error with which the code returned, if any.
abbrev pub Written : Type 0
Written = Writer × Option WriteError

-- One call of the writer. It sends what it can.
unfoldable pub put : WriteError → Bytes → Writer → Written
put e b w =
    if leb (length b) w.room
    then (record { sent = w.sent ++ b; room = w.room - length b }, none)
    else (record { sent = w.sent ++ take w.room b; room = 0 }, some e)

-- The next statement, if the one before it returned no error.
abbrev pub after : (Writer → Written) → Written → Written
after next (w, none) = next w
after next (w, some e) = (w, some e)

-- `io.Copy(w, e.Reader)`; a read error and a write error are reported alike.
unfoldable pub copy_contents : FileEntry → Writer → Written
unfolding put
copy_contents e w =
    after (λ w'. (w', if e.broken then some (read_file e.filepath) else none))
      (put (read_file e.filepath) e.contents w)

unfoldable pub write_file_entry : FileEntry → Writer → Written
unfolding copy_contents times_line file_line
write_file_entry e w = after (put (write_file e.filepath) null_byte) (
    after (copy_contents e) (
      after (put (write_file e.filepath) (file_line e))
        (put (write_file e.filepath) (times_line e.mtime e.atime) w)))

abbrev pub dir_head : DirInfo → Writer → Written
dir_head d w =
    after (put (write_dir d.filepath) (dir_line d))
      (put (write_dir d.filepath) (times_line d.mtime d.atime) w)

unfoldable mutual
  pub write_entry : Entry → Writer → Written
  write_entry (file e) w = write_file_entry e w
  write_entry (dir d children) w =
      after (put (write_dir d.filepath) (codes "E\n"))
        (after (write_entries children) (dir_head d w))

  pub write_entries : Entries → Writer → Written
  write_entries nil w = (w, none)
  write_entries (cons e es) w = after (write_entries es) (write_entry e w)

-- `validateName` returns no error.
unfoldable pub is_valid_name : Bytes → Bool
unfolding bytes_eq has_byte
is_valid_name name =
    if bytes_eq name []
      || bytes_eq name (codes ".")
      || bytes_eq name (codes "..")
      || has_byte b'/' name
      || has_byte b'\\' name
    then false
    else true
