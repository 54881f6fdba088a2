-- ===== src/Scp/Send/Whole.antt =====
-- A tree that is copied to a client whole.
use wish.Base.{
  ◌≤◌, Bytes, List, [], ◌∷◌, map, Bool, true, false, Option, none, some, length, ◌≡◌, refl, ◌∙◌, ap,
  sym, All, subst,
}
use wish.FilePath.{IsName}
use wish.Scp.Entry.{FileEntry, Entries, file, nil, Writer}
use wish.Scp.Entry.Encode.{encode_entries, AllReadable, push, write_entries-encode_entries}
use wish.Scp.Info.{Info}
use wish.Scp.Send.{
  append_entry, Visit, Opened, CopyToClientHandler, Sending, SendError, Sent, walked_file, visit_at,
  if_sent, walk, add_matches, send_all, on_matches, copy_to_client,
}
use wish.Scp.Send.Kept.{Item, a_file, a_dir, items}
use wish.Scp.Send.Rebuilt.{as_entry, append_each, Placed, append_each-items}

-- What a walk calls its function on.
abbrev pub visit_of : Item → Visit
visit_of (a_file f) = record { path = f.filepath; is_dir = false; failed = none }
visit_of (a_dir d) = record { path = d.filepath; is_dir = true; failed = none }

module _ {S : Type 0} (h : CopyToClientHandler S) where
  -- The handler gives the file, or the directory, for its path.
  abbrev pub Gives : Item → Type 0
  Gives (a_file f) =
      (s : S)
      → ((h.new_file_entry f.filepath s).failed ≡ none)
        × ((h.new_file_entry f.filepath s).entry ≡ f)
  Gives (a_dir d) = (s : S) → (t : S) × (h.new_dir_entry d.filepath s ≡ (t, (d, none)))

  -- `Glob` finds the one path, and the walk there visits the tree.
  pub record Holds (info : Info) (m : Bytes) (es : Entries) : Type 0 where
    pub recursive : info.recursive ≡ true
    pub globbed : (s : S) → (t : S) × (h.glob info.path s ≡ (t, (m ∷ [], none)))
    pub walked : (s : S) → h.walk_dir m s ≡ (map visit_of (items es), none)
    pub given : All Gives (items es)

  -- No error, and the root entry.
  abbrev Ends : Entries → Sent S → Type 0
  Ends es x = (x.1 ≡ none) × (x.0.root_entry ≡ es)

  walked_file-Ends :
      (f : FileEntry) (o : Opened S) (v : Sending S)
      → o.failed ≡ none
      → o.entry ≡ f
      → Ends (append_entry (file f) v.root_entry) (walked_file h o v)
  walked_file-Ends f o v p q = rw (p, q) (refl, refl)

  visit_at-Ends :
      (x : Item) (v : Sending S)
      → Gives x
      → Ends
          (append_entry (as_entry x) v.root_entry)
          (visit_at h (visit_of x).path (visit_of x).is_dir (visit_of x).failed v)
  visit_at-Ends (a_file f) v g =
      let (p, q) = g v.state in walked_file-Ends f (h.new_file_entry f.filepath v.state) v p q
  visit_at-Ends (a_dir d) v g = let (t, e) = g v.state in rw e (refl, refl)

  if_sent-Ends :
      (es fs : Entries) (k : Sending S → Sent S) (x : Sent S)
      → Ends es x
      → ((v : Sending S) → v.root_entry ≡ es → Ends fs (k v))
      → Ends fs (if_sent h k x)
  if_sent-Ends es fs k (v, none) (p, q) f = f v q
  if_sent-Ends es fs k (v, some e) (p, q) f = absurd (cc p)

  walk-Ends :
      (xs : List Item) (v : Sending S) (es : Entries)
      → All Gives xs
      → v.root_entry ≡ es
      → Ends (append_each xs es) (walk h (map visit_of xs) none v)
  unfolding walk append_each
  walk-Ends [] v es g e = (refl, e)
  walk-Ends (x ∷ xs) v es (g, gs) e =
      if_sent-Ends (append_entry (as_entry x) v.root_entry)
        (append_each xs (append_entry (as_entry x) es)) (walk h (map visit_of xs) none)
        (visit_at h (visit_of x).path (visit_of x).is_dir (visit_of x).failed v)
        (visit_at-Ends x v g)
        (λ u p.
          walk-Ends xs u (append_entry (as_entry x) es) gs (p ∙ ap (append_entry (as_entry x)) e))

  add_matches-Ends :
      (info : Info) (m : Bytes) (es : Entries) (v : Sending S)
      → Holds info m es
      → v.root_entry ≡ nil
      → Ends (append_each (items es) nil) (add_matches h info.recursive (m ∷ []) v)
  unfolding add_matches
  add_matches-Ends info m es v k e =
      rw (k.recursive, k.walked v.state)
        (if_sent-Ends (append_each (items es) nil) (append_each (items es) nil)
          (add_matches h true []) (walk h (map visit_of (items es)) none v)
          (walk-Ends (items es) v nil k.given e) (λ u p. (refl, p)))

  -- The whole encoding is sent, and there is no error.
  abbrev pub SendsAll : Entries → Writer → S × Writer × Option SendError → Type 0
  SendsAll es w x = (x.1 ≡ push (encode_entries es) w) × (x.2 ≡ none)

  -- What is sent of what has been collected without an error.
  send_all-Ends :
      (es : Entries) (w : Writer) (x : Sent S)
      → AllReadable es
      → length (encode_entries es) ≤ w.room
      → Ends es x
      → SendsAll es w (send_all h w x)
  send_all-Ends es w (v, some e) a l (p, q) = absurd (cc p)
  send_all-Ends es w (v, none) a l (p, q) =
      rw (q, write_entries-encode_entries es w a l) (refl, refl)

  -- A recursive request for a tree that the handler holds is answered with the encoding of that tree, and
  -- without an error, if the tree lies in a directory at a cleaned path, each entry has the path of its
  -- directory with its own name behind it, the name of no directory is a prefix of that of a later one
  -- beside it, no reader fails, and the session takes that many bytes.
  pub copy_to_client-encode_entries :
      (info : Info) (m : Bytes) (r : Bool) (ns : List Bytes) (es : Entries) (w : Writer) (s : S)
      → Holds info m es
      → All IsName ns
      → Placed r ns es
      → AllReadable es
      → length (encode_entries es) ≤ w.room
      → ((copy_to_client h info w s).1 ≡ push (encode_entries es) w)
        × ((copy_to_client h info w s).2 ≡ none)
  unfolding copy_to_client
  copy_to_client-encode_entries info m r ns es w s k names placed a l =
      let (t, e) = k.globbed s in
      let start : Sending S = record { state = t; root_entry = nil; closers = [] } in
      subst (λ x. SendsAll es w (on_matches h info w x)) (sym e)
        (send_all-Ends es w (add_matches h info.recursive (m ∷ []) start) a l (
          subst (λ x. Ends x (add_matches h info.recursive (m ∷ []) start))
            (append_each-items r ns es names placed) (add_matches-Ends info m es start k refl)))
