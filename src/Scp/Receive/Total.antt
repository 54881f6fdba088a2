-- ===== src/Scp/Receive/Total.antt =====
-- The loop ends within its fuel, whatever the client sends and whatever the handler does.
use wish.Base.{
  ℕ, zero, suc, ◌+◌, ◌≤◌, ◌<◌, Bytes, Bool, true, false, Option, none, some, length, ◌≡◌, ◌≢◌, ◌⊎◌,
  refl, arith, length-drop, inl, inr, subst, ap,
}
use wish.FilePath.{join}
use wish.Strconv.{parse_uint, parse_int}
use wish.Scp.Entry.{is_valid_name}
use wish.Scp.Stream.{
  Stream, LimitReader, limit_read, skip_byte, Line, line, no_line, failed, read_line,
}
use wish.Scp.Stream.Limits.{Consumed, Consumed-trans, limit_read-Consumed, read_line-length}
use wish.Scp.Header.{Header, times, file_header, dir_header, end_dir, other, classify}
use wish.Scp.Receive.{
  FileInfo, Outcome, wrote, refused, Program, finish, ask, CopyFromClientHandler, Failure, Result,
  out_of_fuel, Conn, Locals, Next, go_on, return, run_program, reply, file_written, store_file,
  open_file, open_dir, after_line, handle_new_file, set_times, after_file, dir_made, handle_dir,
  handle_line, step, receive, at_start, copy_from_client,
}

pub run_program-Consumed :
    {S : Type 0} (p : Program S) (l : LimitReader) → (n : ℕ) × Consumed l (run_program p l).2 n
unfolding run_program
run_program-Consumed (finish s o) l =
    (0, record { within = omega arith; counted = omega arith; behind = refl; ending = refl })
run_program-Consumed (ask n k) l =
    let g = limit_read n l in
    let (m, rest) = run_program-Consumed (k g.bytes g.status) g.reader in
    (
      length g.bytes + m,
      Consumed-trans l g.reader (run_program (k g.bytes g.status) g.reader).2 (length g.bytes) m
          (limit_read-Consumed n l) rest,
    )

module _ {S : Type 0} where
  -- A round that goes on leaves fewer than `n` bytes, and one that returns has not run out of fuel.
  abbrev Leaves : ℕ → Next S → Type 0
  Leaves n (go_on l c) = length c.stream.rest < n
  Leaves n (return r c) = r ≢ out_of_fuel

  abbrev FileLeaves : ℕ → Conn S × Option Failure → Type 0
  FileLeaves n (c, e) = length c.stream.rest < n

  Leaves-mono : (m n : ℕ) (x : Next S) → m ≤ n → Leaves m x → Leaves n x
  Leaves-mono m n (go_on l c) h k = omega arith
  Leaves-mono m n (return r c) h k = k

  after_file-Leaves :
      (n : ℕ) (l : Locals) (x : Conn S × Option Failure)
      → FileLeaves n x
      → Leaves n (after_file l x)
  after_file-Leaves n l (c, none) h = h
  after_file-Leaves n l (c, some e) h = ground arith

  set_times-Leaves :
      (text : Bytes) (l : Locals) (c : Conn S) (m a : Option ℕ)
      → Leaves (suc (length c.stream.rest)) (set_times text l c m a)
  set_times-Leaves text l c (some m) (some a) = omega arith
  set_times-Leaves text l c (some m) none = ground arith
  set_times-Leaves text l c none _ = ground arith

  file_written-Leaves :
      (i : FileInfo) (c : Conn S) (x : S × Outcome × LimitReader)
      → FileLeaves (suc (length x.2.r.rest)) (file_written i c x)
  unfolding skip_byte
  file_written-Leaves i c (s, refused e, l) = omega arith
  file_written-Leaves i c (s, wrote n, l) = ground (arith, length-drop 1 l.r.rest)

  dir_made-Leaves :
      (l : Locals) (name : Bytes) (c : Conn S) (x : S × Option Bytes)
      → Leaves (suc (length c.stream.rest)) (dir_made l name c x)
  dir_made-Leaves l name c (s, none) = omega arith
  dir_made-Leaves l name c (s, some e) = ground arith

  pub Next-cases :
      (x : Next S)
      → ((l : Locals) × (c : Conn S) × (x ≡ go_on l c))
        ⊎ ((r : Result) × (c : Conn S) × (x ≡ return r c))
  Next-cases (go_on l c) = inl (l, c, refl)
  Next-cases (return r c) = inr (r, c, refl)

module _ {S : Type 0} (h : CopyFromClientHandler S) where
  store_file-Leaves :
      (i : FileInfo) (c : Conn S) → FileLeaves (suc (length c.stream.rest)) (store_file h i c)
  store_file-Leaves i c =
      let x = run_program (h.write i c.state) (record { r = c.stream; left = i.size }) in
      let (n, used) =
        run_program-Consumed (h.write i c.state) (record { r = c.stream; left = i.size }) in
      let shorter : length x.2.r.rest ≤ length c.stream.rest =
        omega (arith, ap length used.behind, length-drop n c.stream.rest) in
      omega (arith, file_written-Leaves i (reply c) x)

  open_file-Leaves :
      (text name : Bytes) (l : Locals) (c : Conn S) (m n : Option ℕ) (valid : Bool)
      → FileLeaves (suc (length c.stream.rest)) (open_file h text name l c m n valid)
  open_file-Leaves text name l c (some m) (some n) true = store_file-Leaves _ c
  open_file-Leaves text name l c (some m) (some n) false = omega arith
  open_file-Leaves text name l c _ _ _ = omega arith

  open_dir-Leaves :
      (text name : Bytes) (l : Locals) (c : Conn S) (m : Option ℕ) (valid : Bool)
      → Leaves (suc (length c.stream.rest)) (open_dir h text name l c m valid)
  open_dir-Leaves text name l c (some m) true =
      dir_made-Leaves (record l { path = join l.path name }) name c _
  open_dir-Leaves text name l c (some m) false = ground arith
  open_dir-Leaves text name l c none _ = ground arith

  handle_line-Leaves :
      (text : Bytes) (hd : Header) (l : Locals) (c : Conn S)
      → Leaves (suc (length c.stream.rest)) (handle_line h text hd l c)
  unfolding handle_line
  handle_line-Leaves text (times m a) l c = set_times-Leaves text l c (parse_int m) (parse_int a)
  handle_line-Leaves text (file_header mode size name) l c =
      unfold handle_new_file in
      after_file-Leaves (suc (length c.stream.rest)) l (handle_new_file h text mode size name l c) (
        open_file-Leaves text name l c (parse_uint 8 32 mode) (parse_int size) (is_valid_name name))
  handle_line-Leaves text (dir_header mode name) l c =
      unfold handle_dir in open_dir-Leaves text name l c (parse_uint 8 32 mode) (is_valid_name name)
  handle_line-Leaves text end_dir l c = omega arith
  handle_line-Leaves text other l c = ground arith

  after_line-Leaves :
      (n : ℕ) (l : Locals) (c : Conn S) (x : Line)
      → ((t : Bytes) (s : Stream) → x ≡ line t s → length s.rest < n)
      → Leaves n (after_line h l c x)
  unfolding after_line
  after_line-Leaves n l c (line text s) k =
      Leaves-mono (suc (length s.rest)) n
        (handle_line h text (classify text) l (record c { stream = s }))
        (omega (arith, k text s refl))
        (handle_line-Leaves text (classify text) l (record c { stream = s }))
  after_line-Leaves n l c (no_line failed s) k = ground arith
  after_line-Leaves n l c (no_line _ s) k = ground arith

  step-Leaves : (n : ℕ) (l : Locals) (c : Conn S) → length c.stream.rest ≤ n → Leaves n (step h l c)
  unfolding step
  step-Leaves n l c k =
      after_line-Leaves n l c (read_line c.stream)
        (λ t s e. omega (arith, read_line-length c.stream t s e))

  receive_total :
      (fuel : ℕ) (l : Locals) (c : Conn S)
      → length c.stream.rest < fuel
      → (receive h fuel l c).1 ≢ out_of_fuel
  unfolding receive
  receive_total zero l c k = elim k [ ]
  receive_total (suc fuel) l c k = elim (Next-cases (step h l c)) [
    | inl (l', c', e) ↦
        let fewer : length c'.stream.rest < fuel =
          subst (Leaves fuel) e (step-Leaves fuel l c (omega arith)) in
        rw (e, receive) (receive_total fuel l' c' fewer)
    | inr (r, c', e) ↦ rw (e, receive) (subst (Leaves fuel) e (step-Leaves fuel l c (omega arith)))
  ]

  -- A round that goes on has read a line.
  pub step-shorter :
      (l l' : Locals) (c c' : Conn S)
      → step h l c ≡ go_on l' c'
      → length c'.stream.rest < length c.stream.rest
  step-shorter l l' c c' e =
      subst (Leaves (length c.stream.rest)) e (step-Leaves (length c.stream.rest) l c (omega arith))

  -- The loop never runs out of fuel: `copyFromClient` returns for every stream and every handler whose
  -- own `Write` returns.
  pub copy_from_client_total :
      (path : Bytes) (c : Conn S) → (copy_from_client h path c).1 ≢ out_of_fuel
  unfolding copy_from_client
  copy_from_client_total path c =
      receive_total (suc (length c.stream.rest)) (at_start path) (reply c) (omega arith)
