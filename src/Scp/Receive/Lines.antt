-- ===== src/Scp/Receive/Lines.antt =====
-- What one round does with each line that an entry is written with, where the handler stores.
use wish.Base.{
  ℕ, suc, ◌≤◌, ◌<◌, ◌^◌, Bytes, codes, ◌∷◌, ◌++◌, true, none, some, length, Lacks, ◌≡◌, refl, arith,
  ◌∙◌, ap, ap₂, drop,
}
use wish.FilePath.{join, dir}
use wish.Strconv.{parse_int, format_uint}
use wish.Strconv.RoundTrip.{parse_uint-octal, parse_int-format_uint}
use wish.Scp.Entry.{DirInfo, is_valid_name}
use wish.Scp.Stream.{Stream, LimitReader, newline, skip_byte}
use wish.Scp.Header.Laws.{
  file_text, dir_text, times_text, classify-file_text, classify-dir_text, classify-times_text,
  classify_end,
}
use wish.Scp.Receive.{
  FileInfo, Outcome, wrote, refused, CopyFromClientHandler, Conn, Locals, go_on, run_program, reply,
  file_written, open_file, open_dir, dir_made, set_times, after_file, handle_line, step, at_start,
}
use wish.Scp.Receive.Total.{run_program-Consumed}
use wish.Scp.Receive.Steps.{Steps, here, next, At, At-reply, behind, behind-At, step_line}

-- A handler that makes the directories it is told to make, and reads every file to the end of what
-- it is given and reports its size.
pub record Stores {S : Type 0} (h : CopyFromClientHandler S) : Type 0 where
  pub made : DirInfo → S → S
  pub stored : FileInfo → Bytes → S → S
  pub mkdir_lem : (d : DirInfo) (s : S) → h.mkdir d s ≡ (made d s, none)
  pub write_lem :
      (i : FileInfo) (s : S) (r : Stream) (b t : Bytes)
      → r.rest ≡ b ++ t
      → length b ≡ i.size
      → let x = run_program (h.write i s) (record { r = r; left = i.size }) in
        (x.0 ≡ stored i b s) × (x.1 ≡ wrote i.size) × (x.2.r.rest ≡ t)

module _ {S : Type 0} (h : CopyFromClientHandler S) where
  -- The state after a round that goes on.
  abbrev pub Goes : Locals → Conn S → Locals → Bytes → ℕ → S → Type 0
  Goes l c m t n s = (d : Conn S) × Steps h m d l c × At t n s d

  one_step :
      {l m : Locals} {c d : Conn S} {t : Bytes} {n : ℕ} {s : S}
      → step h l c ≡ go_on m d
      → At t n s d
      → Goes l c m t n s
  one_step {d} p a = (d, next p (here refl refl), a)

  pub step_times :
      (m a : ℕ) (t : Bytes) (n : ℕ) (s : S) (l : Locals) (c : Conn S)
      → 10 ^ 9 ≤ m
      → m < 10 ^ 10
      → 10 ^ 9 ≤ a
      → a < 10 ^ 10
      → Lacks newline (times_text m a)
      → At (times_text m a ++ newline ∷ t) n s c
      → Goes l c (record l { mtime = m; atime = a }) t (suc n) s
  unfolding handle_line
  step_times m a t n s l c m0 m1 a0 a1 k at =
      one_step
        (step_line h (times_text m a) t n s l c k at
          ∙ ap (λ x. handle_line h (times_text m a) x l (behind t c))
              (classify-times_text m a m0 m1 a0 a1)
          ∙ ap₂ (set_times (times_text m a) l (behind t c)) (parse_int-format_uint m (omega arith))
              (parse_int-format_uint a (omega arith)))
        (At-reply (behind-At at))

  pub step_end :
      (t : Bytes) (n : ℕ) (s : S) (l : Locals) (c : Conn S)
      → At (codes "E" ++ newline ∷ t) n s c
      → Goes l c (record l { path = dir l.path }) t (suc n) s
  unfolding handle_line
  step_end t n s l c at =
      one_step
        (step_line h (codes "E") t n s l c (omega arith) at
          ∙ ap (λ x. handle_line h (codes "E") x l (behind t c)) classify_end)
        (At-reply (behind-At at))

module _ {S : Type 0} (h : CopyFromClientHandler S) (store : Stores h) where
  pub step_dir :
      (p : ℕ) (name t : Bytes) (n : ℕ) (s : S) (l : Locals) (c : Conn S)
      → 64 ≤ p
      → p < 512
      → Lacks newline name
      → is_valid_name name ≡ true
      → Lacks newline (dir_text p name)
      → At (dir_text p name ++ newline ∷ t) n s c
      → Goes h l c (at_start (join l.path name)) t (suc n) (
          store.made
            (record {
              name = name;
              filepath = join l.path name;
              mode = p;
              atime = l.atime;
              mtime = l.mtime;
            })
            s)
  unfolding handle_line
  step_dir p name t n s l c lo hi nl v k at =
      let c' = behind t c in
      let text = dir_text p name in
      let d : DirInfo = record {
        name = name;
        filepath = join l.path name;
        mode = p;
        atime = l.atime;
        mtime = l.mtime;
      } in
      one_step h
        (step_line h text t n s l c k at
          ∙ ap (λ x. handle_line h text x l c') (classify-dir_text p name lo hi nl)
          ∙ ap₂ (open_dir h text name l c') (parse_uint-octal p hi) v
          ∙ ap (dir_made (record l { path = join l.path name }) name c')
              (store.mkdir_lem d c'.state))
        (At-reply (record {
          unread = refl;
          sound = at.sound;
          replied = at.replied;
          stored = ap (store.made d) at.stored;
        }))

  file_written_lem :
      (i : FileInfo) (c : Conn S) (x : S × Outcome × LimitReader)
      → x.1 ≡ wrote i.size
      → file_written i c x ≡ (reply (record c { stream = skip_byte x.2.r; state = x.0 }), none)
  file_written_lem i c (s, wrote n, l) e = ground arith
  file_written_lem i c (s, refused b, l) e = cc

  pub step_file :
      (p size : ℕ) (name b t : Bytes) (n : ℕ) (s : S) (l : Locals) (c : Conn S)
      → 64 ≤ p
      → p < 512
      → Lacks newline name
      → is_valid_name name ≡ true
      → size < 2 ^ 63
      → length b ≡ size
      → Lacks newline (file_text p size name)
      → At (file_text p size name ++ newline ∷ (b ++ 0 ∷ t)) n s c
      → Goes h l c (at_start l.path) t (suc (suc n)) (
          store.stored
            (record {
              name = name;
              filepath = join l.path name;
              mode = p;
              size = size;
              atime = l.atime;
              mtime = l.mtime;
            })
            b
            s)
  unfolding handle_line
  step_file p size name b t n s l c lo hi nl v fits e k at =
      let c' = behind (b ++ 0 ∷ t) c in
      let text = file_text p size name in
      let i : FileInfo = record {
        name = name;
        filepath = join l.path name;
        mode = p;
        size = size;
        atime = l.atime;
        mtime = l.mtime;
      } in
      let x = run_program (h.write i c'.state) (record { r = c'.stream; left = size }) in
      let (kept, said, left) = store.write_lem i c'.state c'.stream b (0 ∷ t) refl e in
      let (used, by) =
        run_program-Consumed (h.write i c'.state) (record { r = c'.stream; left = size }) in
      one_step h
        (step_line h text (b ++ 0 ∷ t) n s l c k at
          ∙ ap (λ y. handle_line h text y l c') (classify-file_text p size name lo hi nl)
          ∙ ap
              (λ m. after_file l (
                open_file h text name l c' m (parse_int (format_uint 10 size))
                  (is_valid_name name)))
              (parse_uint-octal p hi)
          ∙ ap₂ (λ m v. after_file l (open_file h text name l c' (some p) m v))
              (parse_int-format_uint size fits) v
          ∙ ap (after_file l) (file_written_lem i (reply c') x said))
        (At-reply {c = record (reply c') { stream = skip_byte x.2.r; state = x.0 }} (record {
          unread = unfold skip_byte in ap (drop 1) left;
          sound = unfold skip_byte in by.ending ∙ at.sound;
          replied = (At-reply {c = c'} (behind-At at)).replied;
          stored = kept ∙ ap (store.stored i b) at.stored;
        }))
