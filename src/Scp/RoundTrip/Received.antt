-- ===== src/Scp/RoundTrip/Received.antt =====
-- The loop over the encoding of a tree, entry by entry.
use wish.Base.{
  ℕ, zero, suc, ◌+◌, ◌≤◌, ◌<◌, ◌^◌, Bytes, codes, [], ◌∷◌, ◌++◌, Bool, true, false, if◌then◌else◌,
  length, All, All-append, ◌≡◌, refl, arith, ◌∙◌, Bool-cases, inl, inr, subst, ap, sym, replicate,
  append_assoc, append-nil, List,
}
use wish.FilePath.{IsName, join, dir as dir_of, render}
use wish.FilePath.Laws.{join-render_name, dir-render}
use wish.Scp.Entry.{
  FileEntry, DirInfo, Entry, Entries, file, dir, nil, cons, perm, is_valid_name, times_line,
}
use wish.Scp.Entry.Encode.{encode_entry, encode_entries, encode_file}
use wish.Scp.Stream.{newline, no_line, read_line_from, eof, failed}
use wish.Scp.Header.Laws.{file_text, dir_text, times_text}
use wish.Scp.Receive.{
  CopyFromClientHandler, Conn, Locals, at_start, reply, finished, receive, step, after_line, return,
  copy_from_client,
}
use wish.Scp.Receive.Steps.{here, Steps-trans, receive-Steps, At, At-reply}
use wish.Scp.Receive.Lines.{Stores, Goes, step_times, step_dir, step_end, step_file}
use wish.Scp.RoundTrip.Texts.{
  known, TimesFit, times_line_text, file_line_text, dir_line_text, is_valid_name-IsName,
  texts-Lacks_file, texts-Lacks_dir, texts-Lacks_times,
}
use wish.Scp.RoundTrip.{
  SendableFile, SendableDir, Sendable, AllSendable, sent, file_info, dir_info, acks_times, acks,
  acks_all, unpack, unpack_all,
}

perm-lt : (m : ℕ) → perm m < 512
perm-lt m = omega arith

times_known :
    (m a : ℕ)
    → known m a ≡ true
    → TimesFit m a
    → (10 ^ 9 ≤ m) × (m < 10 ^ 10) × (10 ^ 9 ≤ a) × (a < 10 ^ 10)
times_known m a e (inl f) = absurd (cc)
times_known m a e (inr f) = f

times_bytes_known :
    (m a : ℕ) (t : Bytes) → known m a ≡ true → times_line m a ++ t ≡ times_text m a ++ newline ∷ t
times_bytes_known m a t e =
    rw (times_line_text m a, e) (append_assoc (times_text m a) (newline ∷ []) t)

times_bytes_unknown : (m a : ℕ) (t : Bytes) → known m a ≡ false → times_line m a ++ t ≡ t
times_bytes_unknown m a t e = rw (times_line_text m a, e)

file_bytes :
    (e : FileEntry) (t : Bytes)
    → encode_file e ++ t
      ≡ times_line e.mtime e.atime
        ++ (file_text (perm e.mode) e.size e.name ++ newline ∷ (e.contents ++ 0 ∷ t))
unfolding encode_file
file_bytes e t = rw (file_line_text e) (simp append_assoc)

dir_bytes :
    (d : DirInfo) (es : Entries) (t : Bytes)
    → encode_entry (dir d es) ++ t
      ≡ times_line d.mtime d.atime
        ++ (dir_text (perm d.mode) d.name
            ++ newline ∷ (encode_entries es ++ (codes "E" ++ newline ∷ t)))
unfolding encode_entry
dir_bytes d es t = rw (dir_line_text d) (simp append_assoc)

module _ {S : Type 0} (h : CopyFromClientHandler S) where
  Goes-trans :
      {l m k : Locals} {c : Conn S} {t t' : Bytes} {n n' : ℕ} {s s' : S}
      → Goes h l c m t n s
      → ((d : Conn S) → At t n s d → Goes h m d k t' n' s')
      → Goes h l c k t' n' s'
  Goes-trans (d, p, a) f = let (e, q, b) = f d a in (e, Steps-trans h p q, b)

  -- The same connection, described otherwise.
  relabel :
      {l m : Locals} {c : Conn S} {t : Bytes} {n n' : ℕ} {s : S}
      → n ≡ n'
      → Goes h l c m t n s
      → Goes h l c m t n' s
  relabel {l} {m} {c} {t} {s} e g = subst (λ k. Goes h l c m t k s) e g

  reread : {b b' : Bytes} {n : ℕ} {s : S} {c : Conn S} → b ≡ b' → At b n s c → At b' n s c
  reread {n} {s} {c} e a = subst (λ x. At x n s c) e a

  abbrev with_times : Bytes → ℕ → ℕ → Locals
  with_times path m a = record { path = path; mtime = sent m a m; atime = sent m a a }

  -- The line of the times, where there is one.
  times_Goes :
      (m a : ℕ) (path t : Bytes) (n : ℕ) (s : S) (c : Conn S)
      → TimesFit m a
      → At (times_line m a ++ t) n s c
      → Goes h (at_start path) c (with_times path m a) t (n + acks_times m a) s
  times_Goes m a path t n s c fit at = elim (Bool-cases (known m a)) [
    | inl e ↦
        let (m0, m1, a0, a1) = times_known m a e fit in
        let at' = reread (times_bytes_known m a t e) at in
        rw e (
          relabel (omega arith)
            (step_times h m a t n s (at_start path) c m0 m1 a0 a1 (texts-Lacks_times m a) at'))
    | inr e ↦
        let at' = reread (times_bytes_unknown m a t e) at in
        rw e (relabel (omega arith) (c, here refl refl, at'))
  ]

  module _ (store : Stores h) where
    file_Goes :
        (e : FileEntry) (path t : Bytes) (n : ℕ) (s : S) (c : Conn S)
        → SendableFile e
        → At (encode_file e ++ t) n s c
        → Goes h
            (at_start path)
            c
            (at_start path)
            t
            (n + (acks_times e.mtime e.atime + 2))
            (store.stored (file_info path e) e.contents s)
    file_Goes e path t n s c ok at =
        let p = perm e.mode in
        let more = file_text p e.size e.name ++ newline ∷ (e.contents ++ 0 ∷ t) in
        let k = n + acks_times e.mtime e.atime in
        relabel (omega arith) (
          Goes-trans
            (times_Goes e.mtime e.atime path more n s c ok.times_fit (reread (file_bytes e t) at))
            (λ d b.
              step_file h store p e.size e.name e.contents t k s (with_times path e.mtime e.atime) d
                ok.four_digits (perm-lt e.mode) ok.one_line ok.valid ok.int64 ok.exact
                (texts-Lacks_file p e.size e.name ok.one_line) b))

    dir_Goes :
        (d : DirInfo) (path t : Bytes) (n : ℕ) (s : S) (c : Conn S)
        → SendableDir d
        → At (times_line d.mtime d.atime ++ (dir_text (perm d.mode) d.name ++ newline ∷ t)) n s c
        → Goes h
            (at_start path)
            c
            (at_start (join path d.name))
            t
            (n + (acks_times d.mtime d.atime + 1))
            (store.made (dir_info path d) s)
    dir_Goes d path t n s c ok at =
        let p = perm d.mode in
        let k = n + acks_times d.mtime d.atime in
        relabel (omega arith) (
          Goes-trans
            (times_Goes d.mtime d.atime path (dir_text p d.name ++ newline ∷ t) n s c ok.times_fit
              at)
            (λ e b.
              step_dir h store p d.name t k s (with_times path d.mtime d.atime) e ok.four_digits
                (perm-lt d.mode) ok.one_line ok.valid (texts-Lacks_dir p d.name ok.one_line) b))

    -- Behind a directory's entries the path is what it was before them.
    end_Goes :
        (r : Bool) (ns : List Bytes) (name t : Bytes) (n : ℕ) (s : S) (c : Conn S)
        → All IsName ns
        → is_valid_name name ≡ true
        → At (codes "E" ++ newline ∷ t) n s c
        → Goes h (at_start (join (render r ns) name)) c (at_start (render r ns)) t (suc n) s
    end_Goes r ns name t n s c names v at =
        let k = is_valid_name-IsName name v in
        let e : dir_of (join (render r ns) name) ≡ render r ns =
          ap dir_of (join-render_name r ns name names k) ∙ dir-render r ns name names k in
        subst (λ p. Goes h (at_start (join (render r ns) name)) c (at_start p) t (suc n) s) e
          (step_end h t n s (at_start (join (render r ns) name)) c at)

    mutual
      unfolding Sendable encode_entry acks unpack

      entry_Goes :
          (e : Entry) (r : Bool) (ns : List Bytes) (t : Bytes) (n : ℕ) (s : S) (c : Conn S)
          → All IsName ns
          → Sendable e
          → At (encode_entry e ++ t) n s c
          → Goes h
              (at_start (render r ns))
              c
              (at_start (render r ns))
              t
              (n + acks e)
              (unpack store e (render r ns) s)
      entry_Goes (file e) r ns t n s c names ok at = file_Goes e (render r ns) t n s c ok at
      entry_Goes (dir d es) r ns t n s c names (ok, oks) at =
          let path = render r ns in
          let s' = store.made (dir_info path d) s in
          let k = n + (acks_times d.mtime d.atime + 1) in
          let name_ok = is_valid_name-IsName d.name ok.valid in
          let p = join-render_name r ns d.name names name_ok in
          let names' = All-append IsName ns (d.name ∷ []) names (name_ok, tt) in
          relabel (omega arith) (
            Goes-trans
              (dir_Goes d path (encode_entries es ++ (codes "E" ++ newline ∷ t)) n s c ok
                (reread (dir_bytes d es t) at))
              (λ c₁ a₁.
                Goes-trans
                  (subst
                    (λ q.
                      Goes h (at_start q) c₁ (at_start q) (codes "E" ++ newline ∷ t)
                        (k + acks_all es) (unpack_all store es q s'))
                    (sym p)
                    (entries_Goes es r (ns ++ d.name ∷ []) (codes "E" ++ newline ∷ t) k s' c₁ names'
                      oks a₁))
                  (λ c₂ a₂.
                    end_Goes r ns d.name t (k + acks_all es)
                      (unpack_all store es (join path d.name) s') c₂ names ok.valid a₂)))

      entries_Goes :
          (es : Entries) (r : Bool) (ns : List Bytes) (t : Bytes) (n : ℕ) (s : S) (c : Conn S)
          → All IsName ns
          → AllSendable es
          → At (encode_entries es ++ t) n s c
          → Goes h
              (at_start (render r ns))
              c
              (at_start (render r ns))
              t
              (n + acks_all es)
              (unpack_all store es (render r ns) s)
      entries_Goes nil r ns t n s c names ok at = relabel (omega arith) (c, here refl refl, at)
      entries_Goes (cons e es) r ns t n s c names (ok, oks) at = relabel (omega arith) (
          Goes-trans
            (entry_Goes e r ns (encode_entries es ++ t) n s c names ok
              (reread (append_assoc (encode_entry e) (encode_entries es) t) at))
            (λ d a.
              entries_Goes es r ns t (n + acks e) (unpack store e (render r ns) s) d names oks a))

  eof_step :
      {n : ℕ} {s : S} (l : Locals) (c : Conn S)
      → At [] n s c
      → step h l c ≡ return finished (reply (record c { stream = record c.stream { rest = [] } }))
  unfolding step after_line
  eof_step l c a = ap (after_line h l c) (
      ap (λ b. read_line_from b c.stream) a.unread
      ∙ ap (λ b. no_line (if b then failed else eof) (record c.stream { rest = [] })) a.sound)

  -- At the end of the stream the loop returns, with one more reply.
  last_round :
      (fuel n : ℕ) (s : S) (l : Locals) (c : Conn S)
      → At [] n s c
      → 0 < fuel
      → receive h fuel l c ≡ (reply (record c { stream = record c.stream { rest = [] } }), finished)
  unfolding receive step after_line
  last_round zero n s l c a k = elim k [ ]
  last_round (suc fuel) n s l c a k = rw (eof_step l c a, receive) refl

module _ {S : Type 0} (h : CopyFromClientHandler S) (store : Stores h) where
  -- A client that sends the encoding of a tree of entries that can be sent, cut into reads in any way,
  -- is received to the end at a cleaned path: `copyFromClient` finishes without an error, a handler that
  -- reads every file to its end has been given the same directories and files in the same order, and
  -- each step is acknowledged by one zero byte.
  pub copy_from_client-encode_entries :
      (es : Entries) (r : Bool) (ns : List Bytes) (cuts : List ℕ) (s : S)
      → All IsName ns
      → AllSendable es
      → let x = copy_from_client h (render r ns) (record {
        stream = record { rest = encode_entries es; cuts = cuts; broken = false };
        replies = [];
        state = s;
      }) in
        (x.1 ≡ finished)
        × (x.0.state ≡ unpack_all store es (render r ns) s)
        × (x.0.replies ≡ replicate (acks_all es + 2) 0)
  unfolding copy_from_client
  copy_from_client-encode_entries es r ns cuts s names ok =
      let c : Conn S = record {
        stream = record { rest = encode_entries es; cuts = cuts; broken = false };
        replies = [];
        state = s;
      } in
      let a : At (encode_entries es ++ []) 1 s (reply c) = record {
        unread = sym (append-nil (encode_entries es));
        sound = refl;
        replied = refl;
        stored = refl;
      } in
      let (d, p, b) = entries_Goes h store es r ns [] 1 s (reply c) names ok a in
      let (rest, enough, e) = receive-Steps h p (suc (length (encode_entries es))) (omega arith) in
      let done =
        e
        ∙ last_round h rest (1 + acks_all es) (unpack_all store es (render r ns) s)
            (at_start (render r ns)) d b (omega arith) in
      rw done (
        refl,
        b.stored,
        (At-reply b).replied ∙ ap (λ k. replicate k 0) {x = suc (1 + acks_all es)} (omega arith),
      )
