-- ===== src/Scp/Receive/Keeps.antt =====
-- A property of the handler's state that its methods keep is kept by the whole session.
use wish.Base.{
  ℕ, zero, suc, Bytes, Bool, true, false, Option, none, some, arith, inl, inr, subst, length,
}
use wish.FilePath.{join}
use wish.Strconv.{parse_uint, parse_int}
use wish.Scp.Entry.{DirInfo, is_valid_name}
use wish.Scp.Stream.{Status, LimitReader, limit_read, Line, line, no_line, failed, read_line}
use wish.Scp.Header.{Header, times, file_header, dir_header, end_dir, other, classify}
use wish.Scp.Receive.{
  FileInfo, Outcome, wrote, refused, Program, finish, ask, CopyFromClientHandler, Failure, Conn,
  Locals, Next, go_on, return, run_program, reply, file_written, store_file, open_file, set_times,
  after_file, dir_made, open_dir, handle_new_file, handle_line, after_line, step, receive, at_start,
  copy_from_client,
}
use wish.Scp.Receive.Total.{Next-cases}

module _ {S : Type 0} (P : S → Type 0) where
  -- Every way for a `Write` to end leaves a state with the property.
  abbrev pub ProgramKeeps : Program S → Type 0
  ProgramKeeps (finish s o) = P s
  ProgramKeeps (ask n k) = (b : Bytes) (st : Status) → ProgramKeeps (k b st)

  pub record HandlerKeeps (h : CopyFromClientHandler S) : Type 0 where
    pub mkdir_keeps : (d : DirInfo) (s : S) → P s → P (h.mkdir d s).0
    pub write_keeps : (i : FileInfo) (s : S) → P s → ProgramKeeps (h.write i s)

  run_program-keeps : (p : Program S) (l : LimitReader) → ProgramKeeps p → P (run_program p l).0
  unfolding run_program
  run_program-keeps (finish s o) l k = k
  run_program-keeps (ask n f) l k =
      let g = limit_read n l in run_program-keeps (f g.bytes g.status) g.reader (k g.bytes g.status)

  abbrev NextKeeps : Next S → Type 0
  NextKeeps (go_on l c) = P c.state
  NextKeeps (return r c) = P c.state

  abbrev FileKeeps : Conn S × Option Failure → Type 0
  FileKeeps (c, e) = P c.state

  file_written-keeps :
      (i : FileInfo) (c : Conn S) (x : S × Outcome × LimitReader)
      → P x.0
      → FileKeeps (file_written i c x)
  file_written-keeps i c (s, refused e, l) k = k
  file_written-keeps i c (s, wrote n, l) k = ground arith

  after_file-keeps :
      (l : Locals) (x : Conn S × Option Failure) → FileKeeps x → NextKeeps (after_file l x)
  after_file-keeps l (c, none) k = k
  after_file-keeps l (c, some e) k = k

  set_times-keeps :
      (text : Bytes) (l : Locals) (c : Conn S) (m a : Option ℕ)
      → P c.state
      → NextKeeps (set_times text l c m a)
  set_times-keeps text l c (some m) (some a) k = k
  set_times-keeps text l c (some m) none k = k
  set_times-keeps text l c none _ k = k

  dir_made-keeps :
      (l : Locals) (name : Bytes) (c : Conn S) (x : S × Option Bytes)
      → P x.0
      → NextKeeps (dir_made l name c x)
  dir_made-keeps l name c (s, none) k = k
  dir_made-keeps l name c (s, some e) k = k

module _ {S : Type 0} (P : S → Type 0) (h : CopyFromClientHandler S)
    (keeps : HandlerKeeps P h) where
  store_file-keeps : (i : FileInfo) (c : Conn S) → P c.state → FileKeeps P (store_file h i c)
  store_file-keeps i c k =
      file_written-keeps P i (reply c)
        (run_program (h.write i c.state) (record { r = c.stream; left = i.size }))
        (run_program-keeps P (h.write i c.state) (record { r = c.stream; left = i.size })
          (keeps.write_keeps i c.state k))

  open_file-keeps :
      (text name : Bytes) (l : Locals) (c : Conn S) (m n : Option ℕ) (valid : Bool)
      → P c.state
      → FileKeeps P (open_file h text name l c m n valid)
  open_file-keeps text name l c (some m) (some n) true k = store_file-keeps _ c k
  open_file-keeps text name l c (some m) (some n) false k = k
  open_file-keeps text name l c _ _ _ k = k

  open_dir-keeps :
      (text name : Bytes) (l : Locals) (c : Conn S) (m : Option ℕ) (valid : Bool)
      → P c.state
      → NextKeeps P (open_dir h text name l c m valid)
  open_dir-keeps text name l c (some m) true k =
      dir_made-keeps P (record l { path = join l.path name }) name c _
        (keeps.mkdir_keeps _ c.state k)
  open_dir-keeps text name l c (some m) false k = k
  open_dir-keeps text name l c none _ k = k

  handle_line-keeps :
      (text : Bytes) (hd : Header) (l : Locals) (c : Conn S)
      → P c.state
      → NextKeeps P (handle_line h text hd l c)
  unfolding handle_line
  handle_line-keeps text (times m a) l c k =
      set_times-keeps P text l c (parse_int m) (parse_int a) k
  handle_line-keeps text (file_header mode size name) l c k =
      after_file-keeps P l (handle_new_file h text mode size name l c) (
        open_file-keeps text name l c (parse_uint 8 32 mode) (parse_int size) (is_valid_name name)
          k)
  handle_line-keeps text (dir_header mode name) l c k =
      open_dir-keeps text name l c (parse_uint 8 32 mode) (is_valid_name name) k
  handle_line-keeps text end_dir l c k = k
  handle_line-keeps text other l c k = k

  after_line-keeps :
      (l : Locals) (c : Conn S) (x : Line) → P c.state → NextKeeps P (after_line h l c x)
  unfolding after_line
  after_line-keeps l c (line text s) k =
      handle_line-keeps text (classify text) l (record c { stream = s }) k
  after_line-keeps l c (no_line failed s) k = k
  after_line-keeps l c (no_line _ s) k = k

  step-keeps : (l : Locals) (c : Conn S) → P c.state → NextKeeps P (step h l c)
  unfolding step
  step-keeps l c k = after_line-keeps l c (read_line c.stream) k

  receive-keeps : (fuel : ℕ) (l : Locals) (c : Conn S) → P c.state → P (receive h fuel l c).0.state
  unfolding receive
  receive-keeps zero l c k = k
  receive-keeps (suc fuel) l c k = elim (Next-cases (step h l c)) [
    | inl (l', c', e) ↦
        rw (e, receive) (receive-keeps fuel l' c' (subst (NextKeeps P) e (step-keeps l c k)))
    | inr (r, c', e) ↦ rw (e, receive) (subst (NextKeeps P) e (step-keeps l c k))
  ]

  -- A property of the handler's state that `Mkdir` and every run of `Write` keep holds when
  -- `copyFromClient` returns, if it holds when it is called: for every input, errors included.
  pub copy_from_client-keeps :
      (path : Bytes) (c : Conn S) → P c.state → P (copy_from_client h path c).0.state
  unfolding copy_from_client
  copy_from_client-keeps path c k =
      receive-keeps (suc (length c.stream.rest)) (at_start path) (reply c) k
