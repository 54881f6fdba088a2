-- ===== src/Scp/Entry/Interrupted.antt =====
-- What the writing functions report, and what has been sent then.
use wish.Base.{
  ◌≤◌, Bytes, codes, [], ◌++◌, false, none, some, leb, if◌then◌else◌, ◌≡◌, refl, ap, ◌∙◌, length,
  take, drop, append_assoc, append-nil, take-append-drop, Bool-cases, inl, inr, sym, subst,
}
use wish.Scp.Entry.{
  FileEntry, Entry, Entries, file, dir, nil, cons, times_line, file_line, dir_line, null_byte,
  Writer, WriteError, write_file, write_dir, read_file, Written, put, after, copy_contents,
  write_file_entry, write_entry, write_entries, dir_head,
}
use wish.Scp.Entry.Encode.{
  encode_file, encode_entry, encode_entries, Readable, AllReadable, write_entries-encode_entries,
}

-- A complete write has sent `b`, an interrupted one the front of `b`.
abbrev pub Verdict : Bytes → Writer → Written → Type 0
Verdict b w (w', none) = w'.sent ≡ w.sent ++ b
Verdict b w (w', some e) = (p : Bytes) × (q : Bytes) × (b ≡ p ++ q) × (w'.sent ≡ w.sent ++ p)

abbrev Obeys : (Writer → Written) → Bytes → Type 0
Obeys f b = (w : Writer) → Verdict b w (f w)

put-Obeys : (e : WriteError) (b : Bytes) → Obeys (put e b) b
unfolding put
put-Obeys e b w = elim (Bool-cases (leb (length b) w.room)) [
  | inl h ↦ rw h refl
  | inr h ↦ rw h (take w.room b, drop w.room b, sym (take-append-drop w.room b), refl)
]

shift :
    (a b : Bytes) (w w' : Writer) (y : Written)
    → w'.sent ≡ w.sent ++ a
    → Verdict b w' y
    → Verdict (a ++ b) w y
shift a b w w' (v, none) h k = k ∙ ap (λ t. t ++ b) h ∙ append_assoc w.sent a b
shift a b w w' (v, some e) h (p, q, split, sent) = (
  a ++ p,
  q,
  ap (λ t. a ++ t) split ∙ sym (append_assoc a p q),
  sent ∙ ap (λ t. t ++ p) h ∙ append_assoc w.sent a p,
)

after-Verdict :
    (g : Writer → Written) (a b : Bytes) (w : Writer) (x : Written)
    → Verdict a w x
    → Obeys g b
    → Verdict (a ++ b) w (after g x)
after-Verdict g a b w (w', none) h k = shift a b w w' (g w') h (k w')
after-Verdict g a b w (w', some e) (p, q, split, sent) k =
    (p, q ++ b, ap (λ t. t ++ b) split ∙ append_assoc p q b, sent)

after-Obeys :
    (f g : Writer → Written) (a b : Bytes)
    → Obeys f a
    → Obeys g b
    → Obeys (λ w. after g (f w)) (a ++ b)
after-Obeys f g a b p q w = after-Verdict g a b w (f w) (p w) q

reader_end : FileEntry → Writer → Written
reader_end e w = (w, if e.broken then some (read_file e.filepath) else none)

reader_end-Obeys : (e : FileEntry) → Obeys (reader_end e) []
unfolding reader_end
reader_end-Obeys e w = elim (Bool-cases e.broken) [
  | inl h ↦ rw h ([], [], refl, sym (append-nil w.sent))
  | inr h ↦ rw h (sym (append-nil w.sent))
]

copy_contents-Obeys : (e : FileEntry) → Obeys (copy_contents e) e.contents
unfolding copy_contents reader_end
copy_contents-Obeys e = subst (Obeys (copy_contents e)) (append-nil e.contents) (
    after-Obeys (put (read_file e.filepath) e.contents) (reader_end e) e.contents []
      (put-Obeys (read_file e.filepath) e.contents) (reader_end-Obeys e))

regroup : (a b c d : Bytes) → ((a ++ b) ++ c) ++ d ≡ a ++ b ++ c ++ d
regroup a b c d = simp append_assoc

-- Four statements in a row.
four :
    (f g h k : Writer → Written) (a b c d : Bytes)
    → Obeys f a
    → Obeys g b
    → Obeys h c
    → Obeys k d
    → Obeys (λ w. after k (after h (after g (f w)))) (a ++ b ++ c ++ d)
four f g h k a b c d p q r s =
    subst (Obeys (λ w. after k (after h (after g (f w))))) (regroup a b c d) (
      after-Obeys (λ w. after h (after g (f w))) k ((a ++ b) ++ c) d
        (after-Obeys (λ w. after g (f w)) h (a ++ b) c (after-Obeys f g a b p q) r) s)

mutual
  unfolding encode_entry encode_file write_entry write_file_entry

  write_entry-Obeys : (e : Entry) → Obeys (write_entry e) (encode_entry e)
  write_entry-Obeys (file e) =
      let er = write_file e.filepath in
      four (put er (times_line e.mtime e.atime)) (put er (file_line e)) (copy_contents e)
        (put er null_byte) (times_line e.mtime e.atime) (file_line e) e.contents null_byte
        (put-Obeys er (times_line e.mtime e.atime)) (put-Obeys er (file_line e))
        (copy_contents-Obeys e) (put-Obeys er null_byte)
  write_entry-Obeys (dir d es) =
      let er = write_dir d.filepath in
      four (put er (times_line d.mtime d.atime)) (put er (dir_line d)) (write_entries es)
        (put er (codes "E\n")) (times_line d.mtime d.atime) (dir_line d) (encode_entries es)
        (codes "E\n") (put-Obeys er (times_line d.mtime d.atime)) (put-Obeys er (dir_line d))
        (write_entries-Obeys es) (put-Obeys er (codes "E\n"))

  write_entries-Obeys : (es : Entries) → Obeys (write_entries es) (encode_entries es)
  write_entries-Obeys nil = λ w. sym (append-nil w.sent)
  write_entries-Obeys (cons e es) =
      after-Obeys (write_entry e) (write_entries es) (encode_entry e) (encode_entries es)
        (write_entry-Obeys e) (write_entries-Obeys es)

pub write_entries-Verdict :
    (es : Entries) (w : Writer) → Verdict (encode_entries es) w (write_entries es w)
write_entries-Verdict es w = write_entries-Obeys es w

after_done :
    (g : Writer → Written) (x : Written) → (after g x).1 ≡ none → (x.1 ≡ none) × ((g x.0).1 ≡ none)
after_done g (w, none) h = (refl, h)
after_done g (w, some e) h = absurd (cc h)

copy_contents-Readable :
    (e : FileEntry) (w : Writer) → (copy_contents e w).1 ≡ none → e.broken ≡ false
unfolding copy_contents reader_end
copy_contents-Readable e w h =
    let (p, q) = after_done (reader_end e) (put (read_file e.filepath) e.contents w) h in
    elim (Bool-cases e.broken) [ inl b ↦ absurd (cc (rw b at q)) | inr b ↦ b ]

mutual
  unfolding Readable write_entry write_file_entry

  write_entry-Readable : (e : Entry) (w : Writer) → (write_entry e w).1 ≡ none → Readable e
  write_entry-Readable (file e) w h =
      let er = write_file e.filepath in
      let head = after (put er (file_line e)) (put er (times_line e.mtime e.atime) w) in
      let (p, q) = after_done (put er null_byte) (after (copy_contents e) head) h in
      copy_contents-Readable e head.0 (after_done (copy_contents e) head p).1
  write_entry-Readable (dir d es) w h =
      let er = write_dir d.filepath in
      let (p, q) = after_done (put er (codes "E\n")) (after (write_entries es) (dir_head d w)) h in
      write_entries-Readable es (dir_head d w).0 (after_done (write_entries es) (dir_head d w) p).1

  write_entries-Readable :
      (es : Entries) (w : Writer) → (write_entries es w).1 ≡ none → AllReadable es
  write_entries-Readable nil w h = tt
  write_entries-Readable (cons e es) w h =
      let (p, q) = after_done (write_entries es) (write_entry e w) h in
      (write_entry-Readable e w p, write_entries-Readable es (write_entry e w).0 q)

-- Where no error is returned all has been sent and no reader failed; where one is, a front part has, and a reader
-- failed or the session did not take the whole.
abbrev pub Reported : Entries → Writer → Written → Type 0
Reported es w (w', none) = (w'.sent ≡ w.sent ++ encode_entries es) × AllReadable es
Reported es w (w', some e) =
    ((p : Bytes) × (q : Bytes) × (encode_entries es ≡ p ++ q) × (w'.sent ≡ w.sent ++ p))
    × ¬ (AllReadable es × (length (encode_entries es) ≤ w.room))

verdict-Reported :
    (es : Entries) (w : Writer) (x : Written)
    → write_entries es w ≡ x
    → Verdict (encode_entries es) w x
    → Reported es w x
verdict-Reported es w (w', none) e h = (h, write_entries-Readable es w (ap (λ y. y.1) e))
verdict-Reported es w (w', some x) e h =
    (h, λ (k, l). cc (ap (λ y. y.1) e, ap (λ y. y.1) (write_entries-encode_entries es w k l)))

-- `RootEntry.Write` returns no error exactly if no reader of the tree fails and the session takes the whole: then the
-- client has been sent the encoding of the tree. Otherwise it returns an error, and the client has been sent a
-- front part of the encoding, in which the contents of a file are the bytes that its reader gave.
pub write_entries-Reported : (es : Entries) (w : Writer) → Reported es w (write_entries es w)
write_entries-Reported es w =
    verdict-Reported es w (write_entries es w) refl (write_entries-Verdict es w)
