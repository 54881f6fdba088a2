-- ===== src/Scp/Send/Closed.antt =====
-- No file that `copyToClient` opens stays open.
use wish.Base.{
  ℕ, suc, ◌+◌, Bytes, List, [], ◌∷◌, ◌++◌, Option, none, some, ◌≡◌, refl, arith, ◌∙◌, All,
  All-append,
}
use wish.Scp.Entry.{FileEntry, DirInfo, Entries, nil, Writer, WriteError, write_entries}
use wish.Scp.Info.{Info}
use wish.Scp.Send.Invariant.{Keeps, add_matches-keeps}
use wish.Scp.Send.{
  Opened, CopyToClientHandler, Sending, close_all, Sent, file_opened, add_file, walked_file,
  walked_dir, add_matches, written, send_all, on_matches, copy_to_client,
}

module _ {S : Type 0} (open_files : S → ℕ) where
  -- A closing function closes one file; a missing one is no function.
  abbrev pub Closes : Option (S → S) → Type 0
  Closes none = Unit
  Closes (some close) = (s : S) (n : ℕ) → open_files s ≡ suc n → open_files (close s) ≡ n

  abbrev pub count : List (Option (S → S)) → ℕ
  count [] = 0
  count (none ∷ cs) = count cs
  count (some c ∷ cs) = suc (count cs)

  -- An entry whose closing function is missing has left no file open; one that is there stands for one
  -- open file; and with an error none is returned.
  abbrev pub Opens : S → Opened S → Type 0
  Opens s o =
      Closes o.closer
      × (open_files o.state ≡ open_files s + count (o.closer ∷ []))
      × ((e : Bytes) → o.failed ≡ some e → o.closer ≡ none)

  pub record Careful (h : CopyToClientHandler S) : Type 0 where
    pub glob_keeps : (p : Bytes) (s : S) → open_files (h.glob p s).0 ≡ open_files s
    pub dir_keeps : (p : Bytes) (s : S) → open_files (h.new_dir_entry p s).0 ≡ open_files s
    pub file_opens : (p : Bytes) (s : S) → Opens s (h.new_file_entry p s)

  -- The closing functions that are kept are those of the files that are open.
  abbrev Held : ℕ → Sending S → Type 0
  Held n v = All Closes v.closers × (open_files v.state ≡ n + count v.closers)

  count-append : (cs ds : List (Option (S → S))) → count (cs ++ ds) ≡ count cs + count ds
  count-append [] ds = omega arith
  count-append (none ∷ cs) ds = count-append cs ds
  count-append (some c ∷ cs) ds = omega (arith, count-append cs ds)

  close_all-Closes :
      (cs : List (Option (S → S))) (s : S) (n : ℕ)
      → All Closes cs
      → open_files s ≡ n + count cs
      → open_files (close_all cs s) ≡ n
  unfolding close_all
  close_all-Closes [] s n h e = omega (arith, e)
  close_all-Closes (none ∷ cs) s n (c, h) e = close_all-Closes cs s n h e
  close_all-Closes (some close ∷ cs) s n (c, h) e =
      close_all-Closes cs (close s) n h (c s (n + count cs) (omega (arith, e)))

  hold :
      (n : ℕ) (v : Sending S) (o : Opened S)
      → Held n v
      → Opens v.state o
      → All Closes (v.closers ++ o.closer ∷ [])
        × (open_files o.state ≡ n + count (v.closers ++ o.closer ∷ []))
  hold n v o (a, e) (c, f, g) = (
    All-append Closes v.closers (o.closer ∷ []) a (c, tt),
    omega (arith, e, f, count-append v.closers (o.closer ∷ [])),
  )

  file_opened-Held :
      (h : CopyToClientHandler S) (n : ℕ) (s : S) (es : Entries) (cs : List (Option (S → S)))
      (t : S) (k : Option (S → S)) (f : FileEntry) (x : Option Bytes)
      → (All Closes (cs ++ k ∷ [])) × (open_files t ≡ n + count (cs ++ k ∷ []))
      → Held n
          (file_opened h
            (record { state = t; closer = k; entry = f; failed = x })
            (record { state = s; root_entry = es; closers = cs })).0
  file_opened-Held h n s es cs t k f none p = p
  file_opened-Held h n s es cs t k f (some e) p = p

  module _ (h : CopyToClientHandler S) (careful : Careful h) where
    add_file-Held : (n : ℕ) (path : Bytes) (v : Sending S) → Held n v → Held n (add_file h path v).0
    unfolding add_file
    add_file-Held n path v p =
        let o = h.new_file_entry path v.state in
        file_opened-Held h n v.state v.root_entry v.closers o.state o.closer o.entry o.failed
          (hold n v o p (careful.file_opens path v.state))

    walked_file-Held :
        (n : ℕ) (v : Sending S) (t : S) (k : Option (S → S)) (f : FileEntry) (x : Option Bytes)
        → Held n v
        → Opens v.state (record { state = t; closer = k; entry = f; failed = x })
        → Held n (walked_file h (record { state = t; closer = k; entry = f; failed = x }) v).0
    walked_file-Held n v t k f none p q =
        hold n v (record { state = t; closer = k; entry = f; failed = none }) p q
    walked_file-Held n v t none f (some e) (a, p) (c, q, r) = (a, omega (arith, p, q))
    walked_file-Held n v t (some k) f (some e) p (c, q, r) = absurd (cc (r e refl))

    walked_dir-Held :
        (n : ℕ) (v : Sending S) (x : S × (DirInfo × Option Bytes))
        → Held n v
        → open_files x.0 ≡ open_files v.state
        → Held n (walked_dir h v x).0
    walked_dir-Held n v (s, (d, none)) (a, p) e = (a, e ∙ p)
    walked_dir-Held n v (s, (d, some x)) (a, p) e = (a, e ∙ p)

    Held-Keeps : (n : ℕ) → Keeps h (Held n)
    Held-Keeps n = record {
      file_keeps = add_file-Held n;
      walked_file_keeps = λ path v p.
          let o = h.new_file_entry path v.state in
          walked_file-Held n v o.state o.closer o.entry o.failed p
            (careful.file_opens path v.state);
      walked_dir_keeps = λ path v p.
          walked_dir-Held n v (h.new_dir_entry path v.state) p (careful.dir_keeps path v.state);
    }

    written-Held :
        (n : ℕ) (w : Writer) (v : Sending S) (x : Writer × Option WriteError)
        → Held n v
        → open_files (written h w v x).0 ≡ n
    written-Held n w v (w', none) (a, p) = close_all-Closes v.closers v.state n a p
    written-Held n w v (w', some e) (a, p) = close_all-Closes v.closers v.state n a p

    send_all-Held :
        (n : ℕ) (w : Writer) (x : Sent S) → Held n x.0 → open_files (send_all h w x).0 ≡ n
    send_all-Held n w (v, none) p = written-Held n w v (write_entries v.root_entry w) p
    send_all-Held n w (v, some e) (a, p) = close_all-Closes v.closers v.state n a p

    on_matches-Held :
        (info : Info) (w : Writer) (x : S × (List Bytes × Option Bytes))
        → open_files (on_matches h info w x).0 ≡ open_files x.0
    on_matches-Held info w (s, (ms, some e)) = refl
    on_matches-Held info w (s, ([], none)) = refl
    on_matches-Held info w (s, (m ∷ ms, none)) =
        let start : Sending S = record { state = s; root_entry = nil; closers = [] } in
        send_all-Held (open_files s) w (add_matches h info.recursive (m ∷ ms) start) (
          add_matches-keeps h (Held (open_files s)) (Held-Keeps (open_files s)) info.recursive
            (m ∷ ms) start (tt, omega arith))

    -- When `copyToClient` returns, with an error or without, as many files are open as before it was
    -- called, if the handler opens a file only with a closing function for it.
    pub copy_to_client-Careful :
        (info : Info) (w : Writer) (s : S) → open_files (copy_to_client h info w s).0 ≡ open_files s
    unfolding copy_to_client
    copy_to_client-Careful info w s =
        on_matches-Held info w (h.glob info.path s) ∙ careful.glob_keeps info.path s
