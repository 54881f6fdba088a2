-- ===== src/Scp/Receive.antt =====
-- scp/copy_from_client.go: `copyFromClient` and `handleNewFile`. The handler is a parameter: a state
-- of its own, `Mkdir`, and `Write` as the program that it runs on the reader it is given. The
-- replies are the bytes that the session has been sent; the result of sending them is ignored.
pub mod Total
pub mod Steps
pub mod Lines
pub mod Keeps
use wish.Base.{
  ℕ, zero, suc, ◌+◌, Bytes, codes, [], ◌∷◌, ◌++◌, Bool, true, false, Option, none, some, ◌==◌,
  if◌then◌else◌, length,
}
use wish.FilePath.{join, dir}
use wish.Strconv.{parse_uint, parse_int}
use wish.Scp.Entry.{DirInfo, null_byte, is_valid_name}
use wish.Scp.Stream.{
  Stream, Status, fine, eof, failed, Got, LimitReader, limit_read, skip_byte, Line, line, no_line,
  read_line,
}
use wish.Scp.Header.{Header, times, file_header, dir_header, end_dir, other, classify}

-- A `FileEntry` without its reader.
pub record FileInfo : Type 0 where
  pub name : Bytes
  pub filepath : Bytes
  pub mode : ℕ
  pub size : ℕ
  pub atime : ℕ
  pub mtime : ℕ

-- What `Write` returns: the number of bytes that it says it has written, or an error.
pub data Outcome : Type 0 where
  wrote : ℕ → Outcome
  refused : Bytes → Outcome

-- A `Write` in progress: it asks the reader for at most so many bytes, or returns.
pub data Program (S : Type 0) : Type 0 where
  finish : S → Outcome → Program S
  ask : ℕ → (Bytes → Status → Program S) → Program S

pub record CopyFromClientHandler (S : Type 0) : Type 0 where
  pub mkdir : DirInfo → S → S × Option Bytes
  pub write : FileInfo → S → Program S

pub data Failure : Type 0 where
  parse_error invalid_name unhandled : Bytes → Failure
  mkdir_failed write_failed : (name error : Bytes) → Failure
  short_write : (name : Bytes) (written size : ℕ) → Failure
  read_failed : Failure

pub data Result : Type 0 where
  finished out_of_fuel : Result
  failure : Failure → Result

-- The connection and the handler's state.
pub record Conn (S : Type 0) : Type 0 where
  pub stream : Stream
  pub replies : Bytes
  pub state : S

-- The variables of the loop.
pub record Locals : Type 0 where
  pub path : Bytes
  pub mtime : ℕ
  pub atime : ℕ

abbrev pub at_start : Bytes → Locals
at_start path = record { path = path; mtime = 0; atime = 0 }

pub data Next (S : Type 0) : Type 0 where
  go_on : Locals → Conn S → Next S
  return : Result → Conn S → Next S

module _ {S : Type 0} where
  unfoldable pub run_program : Program S → LimitReader → S × Outcome × LimitReader
  unfolding limit_read
  run_program (finish s o) l = (s, o, l)
  run_program (ask n k) l = let g = limit_read n l in run_program (k g.bytes g.status) g.reader

  -- `s.Write(NULL)`
  abbrev pub reply : Conn S → Conn S
  reply c = record c { replies = c.replies ++ null_byte }

  -- What follows the call of `handler.Write`, with the reader in the state it left it in.
  abbrev pub file_written : FileInfo → Conn S → S × Outcome × LimitReader → Conn S × Option Failure
  file_written i c (s, refused e, l) =
      (record c { stream = l.r; state = s }, some (write_failed i.name e))
  file_written i c (s, wrote n, l) =
      if n == i.size
      then (reply (record c { stream = skip_byte l.r; state = s }), none)
      else (record c { stream = l.r; state = s }, some (short_write i.name n i.size))

  abbrev pub set_times : Bytes → Locals → Conn S → Option ℕ → Option ℕ → Next S
  set_times text l c (some m) (some a) = go_on (record l { mtime = m; atime = a }) (reply c)
  set_times text l c _ _ = return (failure (parse_error text)) c

  abbrev pub after_file : Locals → Conn S × Option Failure → Next S
  after_file l (c, none) = go_on (record l { mtime = 0; atime = 0 }) c
  after_file l (c, some e) = return (failure e) c

  abbrev pub dir_made : Locals → Bytes → Conn S → S × Option Bytes → Next S
  dir_made l name c (s, none) =
      go_on (record l { mtime = 0; atime = 0 }) (reply (record c { state = s }))
  dir_made l name c (s, some e) = return (failure (mkdir_failed name e)) (record c { state = s })

module _ {S : Type 0} (h : CopyFromClientHandler S) where
  abbrev pub store_file : FileInfo → Conn S → Conn S × Option Failure
  store_file i c =
      file_written i (reply c)
        (run_program (h.write i c.state) (record { r = c.stream; left = i.size }))

  -- The mode, the size and the name are checked in this order.
  abbrev pub open_file :
      Bytes → Bytes → Locals → Conn S → Option ℕ → Option ℕ → Bool → Conn S × Option Failure
  open_file text name l c (some m) (some n) true =
      store_file
        (record {
          name = name;
          filepath = join l.path name;
          mode = m;
          size = n;
          atime = l.atime;
          mtime = l.mtime;
        })
        c
  open_file text name l c (some m) (some n) false = (c, some (invalid_name name))
  open_file text name l c _ _ _ = (c, some (parse_error text))

  unfoldable pub handle_new_file :
      Bytes → (mode size name : Bytes) → Locals → Conn S → Conn S × Option Failure
  unfolding run_program skip_byte parse_uint parse_int is_valid_name join
  handle_new_file text mode size name l c =
      open_file text name l c (parse_uint 8 32 mode) (parse_int size) (is_valid_name name)

  abbrev pub make_dir : DirInfo → Locals → Conn S → Next S
  make_dir d l c = dir_made (record l { path = d.filepath }) d.name c (h.mkdir d c.state)

  abbrev pub open_dir : Bytes → Bytes → Locals → Conn S → Option ℕ → Bool → Next S
  open_dir text name l c (some m) true =
      make_dir
        (record {
          name = name;
          filepath = join l.path name;
          mode = m;
          atime = l.atime;
          mtime = l.mtime;
        })
        l c
  open_dir text name l c (some m) false = return (failure (invalid_name name)) c
  open_dir text name l c none _ = return (failure (parse_error text)) c

  unfoldable pub handle_dir : Bytes → (mode name : Bytes) → Locals → Conn S → Next S
  unfolding parse_uint is_valid_name join
  handle_dir text mode name l c = open_dir text name l c (parse_uint 8 32 mode) (is_valid_name name)

  unfoldable pub handle_line : Bytes → Header → Locals → Conn S → Next S
  unfolding parse_int handle_new_file handle_dir dir
  handle_line text (times m a) l c = set_times text l c (parse_int m) (parse_int a)
  handle_line text (file_header mode size name) l c =
      after_file l (handle_new_file text mode size name l c)
  handle_line text (dir_header mode name) l c = handle_dir text mode name l c
  handle_line text end_dir l c = go_on (record l { path = dir l.path }) (reply c)
  handle_line text other l c = return (failure (unhandled text)) c

  unfoldable pub after_line : Locals → Conn S → Line → Next S
  unfolding classify handle_line
  after_line l c (line text s) = handle_line text (classify text) l (record c { stream = s })
  after_line l c (no_line failed s) = return (failure read_failed) (record c { stream = s })
  after_line l c (no_line _ s) = return finished (reply (record c { stream = s }))

  -- One round of the loop.
  unfoldable pub step : Locals → Conn S → Next S
  unfolding read_line after_line
  step l c = after_line l c (read_line c.stream)

  unfoldable pub receive : ℕ → Locals → Conn S → Conn S × Result
  unfolding step
  receive zero l c = (c, out_of_fuel)
  receive (suc fuel) l c = elim (step l c) [
    | go_on l' c' ↦ receive fuel l' c'
    | return r c' ↦ (c', r)
  ]

  -- Each round takes a byte at least, so the rounds are at most one more than the bytes.
  unfoldable pub copy_from_client : Bytes → Conn S → Conn S × Result
  unfolding receive
  copy_from_client path c = receive (suc (length c.stream.rest)) (at_start path) (reply c)
