-- ===== src/Scp/FileSystem/Stores.antt =====
-- The file system handler on a disk where nothing fails: it makes and stores what it is told to, whole
-- and in its root, and so receives a tree of entries as it was sent.
use wish.Base.{
  ℕ, zero, suc, ◌+◌, ◌<◌, subst, Bytes, codes, List, [], ◌∷◌, ◌++◌, Bool, ◌||◌, ◌==◌, length, take,
  drop, if◌then◌else◌, ◌≡◌, refl, arith, ap, sym, ◌∙◌, Option, none, some, length-take, length-drop,
  take-append-drop, All, Bool-cases, inl, inr,
}
use wish.FilePath.{IsName, render}
use wish.Scp.Entry.{DirInfo}
use wish.Scp.Stream.{Stream, Status, fine, eof, failed, LimitReader, limit_read, later_cuts}
use wish.Scp.Stream.Portions.{reader_of, portion, portion_bounds, read_portion}
use wish.Scp.Receive.{FileInfo, Outcome, wrote, refused, Program, finish, run_program}
use wish.Scp.Receive.Lines.{Stores}
use wish.Scp.FileSystem.{
  chtimes_call, mkdir_call, open_call, Os, State, prefixed, called, chtimes_at, chtimes, then_times,
  mkdir_at, mkdir, closed, copied, stored, buffer_size, copy_loop, opened, write_at, write,
  file_system_handler,
}
use wish.Scp.FileSystem.Prefixed.{prefixed-Below}

-- A disk where nothing fails, and where two writes to an open file are one.
pub record Works {D : Type 0} (os : Os D) : Type 0 where
  pub timed : Bytes → (atime mtime : ℕ) → D → D
  pub made : Bytes → ℕ → D → D
  pub opened_at : Bytes → ℕ → D → D
  pub appended : Bytes → Bytes → D → D
  pub closed_at : Bytes → D → D
  pub chtimes_lem : (p : Bytes) (a m : ℕ) (d : D) → os.chtimes p a m d ≡ (timed p a m d, none)
  pub mkdir_lem : (p : Bytes) (m : ℕ) (d : D) → os.mkdir p m d ≡ (made p m d, none)
  pub open_lem : (p : Bytes) (m : ℕ) (d : D) → os.open_file p m d ≡ (opened_at p m d, none)
  pub write_lem : (p b : Bytes) (d : D) → os.write p b d ≡ (appended p b d, none)
  pub close_lem : (p : Bytes) (d : D) → os.close p d ≡ (closed_at p d, none)
  pub appended_none : (p : Bytes) (d : D) → appended p [] d ≡ d
  pub appended_twice :
      (p b c : Bytes) (d : D) → appended p c (appended p b d) ≡ appended p (b ++ c) d

abbrev or_root : Bytes → Option Bytes → Bytes
or_root root none = root
or_root root (some p) = p

module _ {D : Type 0} (os : Os D) (works : Works os) (root : Bytes) where
  -- Where a request resolves to.
  abbrev pub resolved : Bytes → Bytes
  resolved path = or_root root (prefixed root path)

  -- What each method does to the disk and to the list of calls.
  abbrev pub times_set : Bytes → (mtime atime : ℕ) → State D → State D
  times_set path m a s = if (m == 0) || (a == 0) then s else record {
    disk = works.timed (resolved path) a m s.disk;
    calls = s.calls ++ chtimes_call (resolved path) ∷ [];
  }

  abbrev pub dir_made : DirInfo → State D → State D
  dir_made d s = times_set d.filepath d.mtime d.atime (record {
    disk = works.made (resolved d.filepath) d.mode s.disk;
    calls = s.calls ++ mkdir_call (resolved d.filepath) ∷ [];
  })

  -- A file opened, with its contents, and closed.
  abbrev pub contents_written : FileInfo → Bytes → State D → State D
  contents_written i b s = record {
    disk = works.closed_at (resolved i.filepath) (
        works.appended (resolved i.filepath) b
          (works.opened_at (resolved i.filepath) i.mode s.disk));
    calls = s.calls ++ open_call (resolved i.filepath) ∷ [];
  }

  abbrev pub file_stored : FileInfo → Bytes → State D → State D
  file_stored i b s = times_set i.filepath i.mtime i.atime (contents_written i b s)

  -- No request is refused.
  abbrev pub Accepts : Type 0
  Accepts = (path : Bytes) → prefixed root path ≡ some (resolved path)

  module _ (accepts : Accepts) where
    chtimes-times_set :
        (path : Bytes) (m a : ℕ) (s : State D)
        → chtimes os root path m a s ≡ (times_set path m a s, none)
    unfolding chtimes
    chtimes-times_set path m a s = elim (Bool-cases ((m == 0) || (a == 0))) [
      | inl e ↦ rw e refl
      | inr e ↦ rw e (
          ap (λ o. chtimes_at os root o m a s) (accepts path)
          ∙ ap (λ x. called os root (chtimes_call (resolved path)) s x)
              (works.chtimes_lem (resolved path) a m s.disk))
    ]

    pub mkdir-dir_made : (d : DirInfo) (s : State D) → mkdir os root d s ≡ (dir_made d s, none)
    unfolding mkdir
    mkdir-dir_made d s =
        let p = resolved d.filepath in
        ap (λ o. mkdir_at os root o d s) (accepts d.filepath)
        ∙ ap
            (λ x. then_times os root d.filepath d.mtime d.atime (called os root (mkdir_call p) s x))
            (works.mkdir_lem p d.mode s.disk)
        ∙ chtimes-times_set d.filepath d.mtime d.atime
            (record { disk = works.made p d.mode s.disk; calls = s.calls ++ mkdir_call p ∷ [] })

    -- What the copy loop does at `q` with `b` to read: it appends it and closes the file.
    abbrev Copies :
        FileInfo → Bytes → ℕ → State D → (b t : Bytes) → State D × Outcome × LimitReader → Type 0
    Copies i q n s b t x =
        (x.0
          ≡ times_set i.filepath i.mtime i.atime
              (record s { disk = works.closed_at q (works.appended q b s.disk) }))
        × (x.1 ≡ wrote (n + length b))
        × (x.2.r.rest ≡ t)

    abbrev next_round : ℕ → FileInfo → Bytes → ℕ → State D → Bytes → Status → Program (State D)
    next_round fuel i q n s b status = elim status [
      | fine ↦
          stored os root (copy_loop os root fuel i q) i q (n + length b) s (os.write q b s.disk)
      | eof ↦ copied os root i q n s (os.close q s.disk)
      | failed ↦ finish (record s { disk = (os.close q s.disk).0 }) (refused (codes "read"))
    ]

    copied_lem :
        (i : FileInfo) (q : Bytes) (n : ℕ) (s : State D)
        → copied os root i q n s (os.close q s.disk)
          ≡ finish
              (times_set i.filepath i.mtime i.atime (record s { disk = works.closed_at q s.disk }))
              (wrote n)
    copied_lem i q n s =
        ap (copied os root i q n s) (works.close_lem q s.disk)
        ∙ ap (closed os root i n) (
            chtimes-times_set i.filepath i.mtime i.atime
              (record s { disk = works.closed_at q s.disk }))

    copy_loop-Copies :
        (fuel : ℕ) (i : FileInfo) (q : Bytes) (n : ℕ) (s : State D) (b t : Bytes) (cuts : List ℕ)
        (broken : Bool)
        → length b < fuel
        → Copies i q n s b t (
            run_program
              (copy_loop os root fuel i q n s)
              (reader_of (b ++ t) cuts broken (length b)))
    unfolding copy_loop run_program
    copy_loop-Copies zero i q n s b t cuts broken h = absurd (omega (arith, h))
    copy_loop-Copies (suc fuel) i q n s [] t cuts broken h =
        unfold limit_read in
        subst (λ p. Copies i q n s [] t (run_program p (reader_of t cuts broken 0)))
          (sym (copied_lem i q n s))
          (
            ap (λ d. times_set i.filepath i.mtime i.atime (record s { disk = works.closed_at q d }))
                (sym (works.appended_none q s.disk)),
            ap wrote (omega arith),
            refl,
          )
    copy_loop-Copies (suc fuel) i q n s (c ∷ b) t cuts broken h =
        let k = portion buffer_size (c ∷ b) cuts in
        let (lo, hi) = portion_bounds buffer_size c b cuts (omega arith) in
        let front = take k (c ∷ b) in
        let back = drop k (c ∷ b) in
        let s' = record s { disk = works.appended q front s.disk } in
        let (x, y, z) =
          copy_loop-Copies fuel i q (n + length front) s' back t (later_cuts cuts) broken
            (omega (arith, h, lo, length-drop k (c ∷ b))) in
        let whole : works.appended q back (works.appended q front s.disk)
            ≡ works.appended q (c ∷ b) s.disk =
          works.appended_twice q front back s.disk
          ∙ ap (λ v. works.appended q v s.disk) (take-append-drop k (c ∷ b)) in
        let all : n + length front + length back ≡ n + length (c ∷ b) =
          omega (arith, hi, length-take k (c ∷ b), length-drop k (c ∷ b)) in
        subst
          (λ g.
            Copies i q n s (c ∷ b) t
              (run_program (next_round fuel i q n s g.bytes g.status) g.reader))
          (sym (read_portion buffer_size c b t cuts broken (omega arith)))
          (subst
            (λ w. Copies i q n s (c ∷ b) t (
              run_program (stored os root (copy_loop os root fuel i q) i q (n + length front) s w)
                (reader_of (back ++ t) (later_cuts cuts) broken (length back))))
            (sym (works.write_lem q front s.disk))
            (
              x
                  ∙ ap
                      (λ d.
                        times_set i.filepath i.mtime i.atime
                          (record s { disk = works.closed_at q d }))
                      whole,
              y ∙ ap wrote all,
              z,
            ))

    abbrev Whole : FileInfo → State D → (b t : Bytes) → State D × Outcome × LimitReader → Type 0
    Whole i s b t x = (x.0 ≡ file_stored i b s) × (x.1 ≡ wrote (length b)) × (x.2.r.rest ≡ t)

    pub write-Whole :
        (i : FileInfo) (s : State D) (r : Stream) (b t : Bytes)
        → r.rest ≡ b ++ t
        → length b ≡ i.size
        → Whole i s b t (run_program (write os root i s) (record { r = r; left = i.size }))
    unfolding write
    write-Whole i s r b t e f =
        let q = resolved i.filepath in
        let s' : State D = record {
          disk = works.opened_at q i.mode s.disk;
          calls = s.calls ++ open_call q ∷ [];
        } in
        let begun : write_at os root (prefixed root i.filepath) i s
            ≡ copy_loop os root (suc i.size) i q 0 s' =
          ap (λ o. write_at os root o i s) (accepts i.filepath)
          ∙ ap (λ x. opened os root i q (called os root (open_call q) s x))
              (works.open_lem q i.mode s.disk) in
        let (x, y, z) : Copies i q 0 s' b t (
            run_program (copy_loop os root (suc i.size) i q 0 s')
              (reader_of (b ++ t) r.cuts r.broken (length b))) =
          copy_loop-Copies (suc i.size) i q 0 s' b t r.cuts r.broken (omega (arith, f)) in
        subst (λ p. Whole i s b t (run_program p (record { r = r; left = i.size }))) (sym begun)
          (subst
            (λ n.
              Whole i s b t (
                run_program (copy_loop os root (suc i.size) i q 0 s') (record { r = r; left = n })))
            f
            (subst
              (λ v. Whole i s b t (
                run_program (copy_loop os root (suc i.size) i q 0 s')
                  (reader_of v r.cuts r.broken (length b))))
              (sym e) (x, y ∙ ap wrote (omega arith), z)))

    -- The file system handler is one that stores whole what it is sent.
    abbrev pub file_system_stores : Stores (file_system_handler os root)
    file_system_stores = record {
      made = dir_made;
      stored = file_stored;
      mkdir_lem = mkdir-dir_made;
      write_lem =
          λ i s r b t e f. let (x, y, z) = write-Whole i s r b t e f in (x, y ∙ ap wrote f, z);
    }

-- At a root that is a cleaned path of names no request is refused.
pub Below-Accepts :
    {D : Type 0} (os : Os D) (works : Works os) (r : Bool) (p : Bytes) (ns : List Bytes)
    → All IsName (p ∷ ns)
    → Accepts os works (render r (p ∷ ns))
Below-Accepts os works r p ns names path =
    let (ms, e, k) = prefixed-Below r p ns path names in
    e ∙ ap (λ o. some (or_root (render r (p ∷ ns)) o)) (sym e)
