-- ===== src/Scp/Send/Given.antt =====
-- Only what the handler gives is sent.
use wish.Base.{
  Bytes, List, [], ◌∷◌, ◌++◌, Option, none, some, All, All-append, All-append_left,
  All-append_right, ◌≡◌, refl, sym, append-nil, subst,
}
use wish.Scp.Entry.{
  FileEntry, DirInfo, Entry, Entries, file, dir, nil, Writer, WriteError, write_entries,
}
use wish.Scp.Entry.Encode.{encode_entries}
use wish.Scp.Entry.Interrupted.{Verdict, write_entries-Verdict}
use wish.Scp.Info.{Info}
use wish.Scp.Send.{
  append_entry, CopyToClientHandler, Sending, Sent, add_file, file_opened, walked_file, walked_dir,
  add_matches, written, send_all, on_matches, copy_to_client,
}
use wish.Scp.Send.Invariant.{Keeps, add_matches-keeps}
use wish.Scp.Send.Kept.{Item, a_file, a_dir, items, items_of, WithItems, append_entry-WithItems}

module _ (Q : Item → Type 0) where
  put_in :
      (e : Entry) (old new : List Item)
      → WithItems e old new
      → All Q (items_of e)
      → All Q old
      → All Q new
  put_in e old new (a, b, p, q) k h =
      let k' : All Q (a ++ b) = subst (All Q) p h in
      subst (All Q) (sym q) (
        All-append Q a (items_of e ++ b) (All-append_left Q a b k')
          (All-append Q (items_of e) b k (All-append_right Q a b k')))

  append_entry-All :
      (e : Entry) (es : Entries)
      → All Q (items_of e)
      → All Q (items es)
      → All Q (items (append_entry e es))
  append_entry-All e es k h =
      put_in e (items es) (items (append_entry e es)) (append_entry-WithItems e es) k h

  -- What has been sent is the front of an encoding.
  abbrev pub SentOnly : Writer → Writer → Type 0
  SentOnly w w' =
      (es : Entries) × (front : Bytes) × (back : Bytes) × All Q (items es)
      × (encode_entries es ≡ front ++ back)
      × (w'.sent ≡ w.sent ++ front)

  module _ {S : Type 0} (h : CopyToClientHandler S) where
    -- Each entry that the handler gives without an error has the property.
    pub record Gives : Type 0 where
      pub file_given :
          (p : Bytes) (s : S)
          → (h.new_file_entry p s).failed ≡ none
          → Q (a_file (h.new_file_entry p s).entry)
      pub dir_given :
          (p : Bytes) (s : S)
          → (h.new_dir_entry p s).1.1 ≡ none
          → Q (a_dir (h.new_dir_entry p s).1.0)

    abbrev Has : Sending S → Type 0
    Has v = All Q (items v.root_entry)

    file_opened-Has :
        (v : Sending S) (t : S) (k : Option (S → S)) (f : FileEntry) (x : Option Bytes)
        → (x ≡ none → Q (a_file f))
        → Has v
        → Has (file_opened h (record { state = t; closer = k; entry = f; failed = x }) v).0
    file_opened-Has v t k f none q p =
        append_entry-All (file f) v.root_entry (unfold items in (q refl, tt)) p
    file_opened-Has v t k f (some e) q p = p

    walked_file-Has :
        (v : Sending S) (t : S) (k : Option (S → S)) (f : FileEntry) (x : Option Bytes)
        → (x ≡ none → Q (a_file f))
        → Has v
        → Has (walked_file h (record { state = t; closer = k; entry = f; failed = x }) v).0
    walked_file-Has v t k f none q p = file_opened-Has v t k f none q p
    walked_file-Has v t k f (some e) q p = p

    walked_dir-Has :
        (v : Sending S) (x : S × (DirInfo × Option Bytes))
        → (x.1.1 ≡ none → Q (a_dir x.1.0))
        → Has v
        → Has (walked_dir h v x).0
    walked_dir-Has v (s, (d, none)) q p =
        append_entry-All (dir d nil) v.root_entry (unfold items in (q refl, tt)) p
    walked_dir-Has v (s, (d, some e)) q p = p

    module _ (gives : Gives) where
      Has-Keeps : Keeps h Has
      unfolding add_file
      Has-Keeps = record {
        file_keeps = λ path v p.
            let o = h.new_file_entry path v.state in
            file_opened-Has v o.state o.closer o.entry o.failed (gives.file_given path v.state) p;
        walked_file_keeps = λ path v p.
            let o = h.new_file_entry path v.state in
            walked_file-Has v o.state o.closer o.entry o.failed (gives.file_given path v.state) p;
        walked_dir_keeps = λ path v p.
            walked_dir-Has v (h.new_dir_entry path v.state) (gives.dir_given path v.state) p;
      }

      written-SentOnly :
          (w : Writer) (v : Sending S) (x : Writer × Option WriteError)
          → Has v
          → Verdict (encode_entries v.root_entry) w x
          → SentOnly w (written h w v x).1
      written-SentOnly w v (w', none) p e = (
        v.root_entry,
        encode_entries v.root_entry,
        [],
        p,
        sym (append-nil (encode_entries v.root_entry)),
        e,
      )
      written-SentOnly w v (w', some x) p (a, b, e, f) = (v.root_entry, a, b, p, e, f)

      none_sent : (w : Writer) → SentOnly w w
      unfolding encode_entries items
      none_sent w = (nil, [], [], tt, refl, sym (append-nil w.sent))

      send_all-SentOnly : (w : Writer) (x : Sent S) → Has x.0 → SentOnly w (send_all h w x).1
      send_all-SentOnly w (v, some e) p = none_sent w
      send_all-SentOnly w (v, none) p =
          written-SentOnly w v (write_entries v.root_entry w) p
            (write_entries-Verdict v.root_entry w)

      on_matches-SentOnly :
          (info : Info) (w : Writer) (x : S × (List Bytes × Option Bytes))
          → SentOnly w (on_matches h info w x).1
      on_matches-SentOnly info w (s, (ms, some e)) = none_sent w
      on_matches-SentOnly info w (s, ([], none)) = none_sent w
      on_matches-SentOnly info w (s, (m ∷ ms, none)) =
          let start : Sending S = record { state = s; root_entry = nil; closers = [] } in
          send_all-SentOnly w (add_matches h info.recursive (m ∷ ms) start)
            (add_matches-keeps h Has Has-Keeps info.recursive (m ∷ ms) start (unfold items in tt))

      -- Whatever the client asks for and wherever `copyToClient` fails, what the client has been sent is a
      -- front part of the encoding of entries that all have the property.
      pub copy_to_client-SentOnly :
          (info : Info) (w : Writer) (s : S) → SentOnly w (copy_to_client h info w s).1
      unfolding copy_to_client
      copy_to_client-SentOnly info w s = on_matches-SentOnly info w (h.glob info.path s)
