-- ===== src/Scp/Entry/Encode.antt =====
-- What an entry looks like on the wire, and that the writing functions send exactly that.
use wish.Base.{
  ◌-◌, ◌≤◌, Bytes, codes, [], ◌++◌, false, none, ◌≡◌, ap, arith, length, length-append,
  append_assoc, append-nil, sym, subst,
}
use wish.Scp.Entry.{
  FileEntry, DirInfo, Entry, Entries, file, dir, nil, cons, times_line, file_line, dir_line,
  null_byte, Writer, WriteError, write_file, write_dir, read_file, Written, put, after,
  copy_contents, write_file_entry, dir_head, write_entry, write_entries,
}

unfoldable pub encode_file : FileEntry → Bytes
encode_file e = times_line e.mtime e.atime ++ file_line e ++ e.contents ++ null_byte

unfoldable mutual
  pub encode_entry : Entry → Bytes
  encode_entry (file e) = encode_file e
  encode_entry (dir d es) =
      times_line d.mtime d.atime ++ dir_line d ++ encode_entries es ++ codes "E\n"

  pub encode_entries : Entries → Bytes
  encode_entries nil = []
  encode_entries (cons e es) = encode_entry e ++ encode_entries es

-- No reader of the tree fails.
unfoldable mutual
  pub Readable : Entry → Type 0
  Readable (file e) = e.broken ≡ false
  Readable (dir d es) = AllReadable es

  pub AllReadable : Entries → Type 0
  AllReadable nil = Unit
  AllReadable (cons e es) = Readable e × AllReadable es

abbrev pub push : Bytes → Writer → Writer
push b w = record { sent = w.sent ++ b; room = w.room - length b }

-- `f` sends `b` where the writer has room for it.
abbrev Sends : (Writer → Written) → Bytes → Type 0
Sends f b = (w : Writer) → length b ≤ w.room → f w ≡ (push b w, none)

push-push : (a b : Bytes) (w : Writer) → push b (push a w) ≡ push (a ++ b) w
push-push a b w =
    let s : (w.sent ++ a) ++ b ≡ w.sent ++ (a ++ b) = append_assoc w.sent a b in
    let r : w.room - length a - length b ≡ w.room - length (a ++ b) =
      omega (arith, length-append a b) in
    λ i. record { sent = s i; room = r i }

put-Sends : (e : WriteError) (b : Bytes) → Sends (put e b) b
unfolding put
put-Sends e b w h = ground arith

after-Sends :
    (f g : Writer → Written) (a b : Bytes)
    → Sends f a
    → Sends g b
    → Sends (λ w. after g (f w)) (a ++ b)
after-Sends f g a b p q w h =
    rw (p w (omega (arith, length-append a b)), q (push a w) (omega (arith, length-append a b)))
      (ap (λ v. (v, none)) (push-push a b w))

copy_contents-Sends : (e : FileEntry) → e.broken ≡ false → Sends (copy_contents e) e.contents
unfolding copy_contents
copy_contents-Sends e h w k = rw (put-Sends (read_file e.filepath) e.contents w k, h)

regroup : (a b c d : Bytes) → ((a ++ b) ++ c) ++ d ≡ a ++ b ++ c ++ d
regroup a b c d = simp append_assoc

write_file_entry-Sends :
    (e : FileEntry) → e.broken ≡ false → Sends (write_file_entry e) (encode_file e)
unfolding write_file_entry encode_file
write_file_entry-Sends e h =
    let t = times_line e.mtime e.atime in
    let head =
      after-Sends (put (write_file e.filepath) t) (put (write_file e.filepath) (file_line e)) t
        (file_line e) (put-Sends (write_file e.filepath) t)
        (put-Sends (write_file e.filepath) (file_line e)) in
    let body =
      after-Sends _ (copy_contents e) (t ++ file_line e) e.contents head
        (copy_contents-Sends e h) in
    subst (Sends (write_file_entry e)) (regroup t (file_line e) e.contents null_byte) (
      after-Sends _ (put (write_file e.filepath) null_byte) ((t ++ file_line e) ++ e.contents)
        null_byte body (put-Sends (write_file e.filepath) null_byte))

dir_head-Sends : (d : DirInfo) → Sends (dir_head d) (times_line d.mtime d.atime ++ dir_line d)
dir_head-Sends d =
    after-Sends (put (write_dir d.filepath) (times_line d.mtime d.atime))
      (put (write_dir d.filepath) (dir_line d)) (times_line d.mtime d.atime) (dir_line d)
      (put-Sends (write_dir d.filepath) (times_line d.mtime d.atime))
      (put-Sends (write_dir d.filepath) (dir_line d))

write_nothing : (w : Writer) → push [] w ≡ w
write_nothing w =
    let s : w.sent ++ [] ≡ w.sent = append-nil w.sent in
    let r : w.room - 0 ≡ w.room = omega arith in λ i. record { sent = s i; room = r i }

mutual
  unfolding encode_entry Readable write_entry

  write_entry-Sends : (e : Entry) → Readable e → Sends (write_entry e) (encode_entry e)
  write_entry-Sends (file e) h = write_file_entry-Sends e h
  write_entry-Sends (dir d es) h =
      let t = times_line d.mtime d.atime in
      let body =
        after-Sends (dir_head d) (write_entries es) (t ++ dir_line d) (encode_entries es)
          (dir_head-Sends d) (write_entries-Sends es h) in
      subst (Sends (write_entry (dir d es)))
        (regroup t (dir_line d) (encode_entries es) (codes "E\n"))
        (after-Sends _ (put (write_dir d.filepath) (codes "E\n"))
          ((t ++ dir_line d) ++ encode_entries es) (codes "E\n") body
          (put-Sends (write_dir d.filepath) (codes "E\n")))

  write_entries-Sends :
      (es : Entries) → AllReadable es → Sends (write_entries es) (encode_entries es)
  write_entries-Sends nil h = λ w k. ap (λ v. (v, none)) (sym (write_nothing w))
  write_entries-Sends (cons e es) (h, hs) =
      after-Sends (write_entry e) (write_entries es) (encode_entry e) (encode_entries es)
        (write_entry-Sends e h) (write_entries-Sends es hs)

-- `RootEntry.Write` sends exactly the encoding of its children and reports no error, where every
-- reader gives its bytes without an error and the writer has room for the encoding.
pub write_entries-encode_entries :
    (es : Entries) (w : Writer)
    → AllReadable es
    → length (encode_entries es) ≤ w.room
    → write_entries es w ≡ (push (encode_entries es) w, none)
write_entries-encode_entries es w h k = write_entries-Sends es h w k
