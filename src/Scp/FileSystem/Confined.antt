-- ===== src/Scp/FileSystem/Confined.antt =====
-- Every path that the handler hands to the operating system lies in its root.
use wish.Base.{
  ℕ, zero, suc, ◌+◌, Bytes, List, [], ◌∷◌, Bool, ◌||◌, Option, none, some, ◌==◌, length, ◌≡◌, refl,
  All, All-append, Bool-cases, inl, inr,
}
use wish.FilePath.{IsName, render}
use wish.FilePath.Laws.{clean-render}
use wish.Scp.Entry.{DirInfo}
use wish.Scp.Stream.{fine, eof, failed}
use wish.Scp.Receive.{FileInfo, Program, Conn, copy_from_client}
use wish.Scp.Receive.Keeps.{ProgramKeeps, copy_from_client-keeps}
use wish.Scp.FileSystem.{
  Call, chtimes_call, mkdir_call, open_call, stat_call, glob_call, walk_call, Os, State, prefixed,
  called, chtimes_at, chtimes, then_times, mkdir_at, mkdir, closed, copied, stored, copy_loop,
  opened, write_at, write, file_system_handler, new_file_system_handler,
}
use wish.Scp.FileSystem.Prefixed.{Below, prefixed-Below}

abbrev pub path_of : Call → Bytes
path_of (chtimes_call p) = p
path_of (mkdir_call p) = p
path_of (open_call p) = p
path_of (stat_call p) = p
path_of (glob_call p) = p
path_of (walk_call p) = p

module _ {D : Type 0} (os : Os D) (r : Bool) (p : Bytes) (ns : List Bytes) where
  -- The calls that were made have paths in the root.
  abbrev pub IsConfined : State D → Type 0
  IsConfined s = All (λ k. Below r (p ∷ ns) (path_of k)) s.calls

  abbrev root : Bytes
  root = render r (p ∷ ns)

  called-IsConfined :
      (k : Call) (s : State D) (x : D × Option Bytes)
      → IsConfined s
      → Below r (p ∷ ns) (path_of k)
      → IsConfined (called os root k s x).0
  called-IsConfined k s (d, e) c b =
      All-append (λ k. Below r (p ∷ ns) (path_of k)) s.calls (k ∷ []) c (b, tt)

  module _ (names : All IsName (p ∷ ns)) where
    -- What `prefixed` returns is in the root.
    prefixed-within : (path q : Bytes) → prefixed root path ≡ some q → Below r (p ∷ ns) q
    prefixed-within path q e =
        let (ms, f, k) = prefixed-Below r p ns path names in (ms, cc (e, f), k)

    abbrev Within : Option Bytes → Type 0
    Within o = (q : Bytes) → o ≡ some q → Below r (p ∷ ns) q

    chtimes_at-IsConfined :
        (o : Option Bytes) (m a : ℕ) (s : State D)
        → Within o
        → IsConfined s
        → IsConfined (chtimes_at os root o m a s).0
    chtimes_at-IsConfined none m a s w c = c
    chtimes_at-IsConfined (some q) m a s w c =
        called-IsConfined (chtimes_call q) s (os.chtimes q a m s.disk) c (w q refl)

    chtimes-IsConfined :
        (path : Bytes) (m a : ℕ) (s : State D)
        → IsConfined s
        → IsConfined (chtimes os root path m a s).0
    unfolding chtimes
    chtimes-IsConfined path m a s c = elim (Bool-cases ((m == 0) || (a == 0))) [
      | inl e ↦ rw e c
      | inr e ↦ rw e (chtimes_at-IsConfined (prefixed root path) m a s (prefixed-within path) c)
    ]

    then_times-IsConfined :
        (path : Bytes) (m a : ℕ) (x : State D × Option Bytes)
        → IsConfined x.0
        → IsConfined (then_times os root path m a x).0
    then_times-IsConfined path m a (s, none) c = chtimes-IsConfined path m a s c
    then_times-IsConfined path m a (s, some e) c = c

    mkdir_at-IsConfined :
        (o : Option Bytes) (d : DirInfo) (s : State D)
        → Within o
        → IsConfined s
        → IsConfined (mkdir_at os root o d s).0
    mkdir_at-IsConfined none d s w c = c
    mkdir_at-IsConfined (some q) d s w c =
        then_times-IsConfined d.filepath d.mtime d.atime
          (called os root (mkdir_call q) s (os.mkdir q d.mode s.disk))
          (called-IsConfined (mkdir_call q) s (os.mkdir q d.mode s.disk) c (w q refl))

    mkdir-IsConfined : (d : DirInfo) (s : State D) → IsConfined s → IsConfined (mkdir os root d s).0
    unfolding mkdir
    mkdir-IsConfined d s c =
        mkdir_at-IsConfined (prefixed root d.filepath) d s (prefixed-within d.filepath) c

    closed-keeps :
        (i : FileInfo) (n : ℕ) (x : State D × Option Bytes)
        → IsConfined x.0
        → ProgramKeeps IsConfined (closed os root i n x)
    closed-keeps i n (s, none) c = c
    closed-keeps i n (s, some e) c = c

    copied-keeps :
        (i : FileInfo) (q : Bytes) (n : ℕ) (s : State D) (x : D × Option Bytes)
        → IsConfined s
        → ProgramKeeps IsConfined (copied os root i q n s x)
    copied-keeps i q n s (d, some e) c = c
    copied-keeps i q n s (d, none) c =
        closed-keeps i n
          (then_times os root i.filepath i.mtime i.atime (record s { disk = d }, none))
          (then_times-IsConfined i.filepath i.mtime i.atime (record s { disk = d }, none) c)

    stored-keeps :
        (more : ℕ → State D → Program (State D)) (i : FileInfo) (q : Bytes) (n : ℕ) (s : State D)
        (x : D × Option Bytes)
        → IsConfined s
        → ((k : ℕ) (t : State D) → IsConfined t → ProgramKeeps IsConfined (more k t))
        → ProgramKeeps IsConfined (stored os root more i q n s x)
    stored-keeps more i q n s (d, some e) c f = c
    stored-keeps more i q n s (d, none) c f = f n (record s { disk = d }) c

    copy_loop-keeps :
        (fuel : ℕ) (i : FileInfo) (q : Bytes) (n : ℕ) (s : State D)
        → IsConfined s
        → ProgramKeeps IsConfined (copy_loop os root fuel i q n s)
    unfolding copy_loop
    copy_loop-keeps zero i q n s c = c
    copy_loop-keeps (suc fuel) i q n s c = λ b. elim [
      | fine ↦
          stored-keeps (copy_loop os root fuel i q) i q (n + length b) s (os.write q b s.disk) c
            (λ k t d. copy_loop-keeps fuel i q k t d)
      | eof ↦ copied-keeps i q n s (os.close q s.disk) c
      | failed ↦ c
    ]

    opened-keeps :
        (i : FileInfo) (q : Bytes) (x : State D × Option Bytes)
        → IsConfined x.0
        → ProgramKeeps IsConfined (opened os root i q x)
    opened-keeps i q (s, none) c = copy_loop-keeps (suc i.size) i q 0 s c
    opened-keeps i q (s, some e) c = c

    write_at-keeps :
        (o : Option Bytes) (i : FileInfo) (s : State D)
        → Within o
        → IsConfined s
        → ProgramKeeps IsConfined (write_at os root o i s)
    write_at-keeps none i s w c = c
    write_at-keeps (some q) i s w c =
        opened-keeps i q (called os root (open_call q) s (os.open_file q i.mode s.disk))
          (called-IsConfined (open_call q) s (os.open_file q i.mode s.disk) c (w q refl))

    write-keeps :
        (i : FileInfo) (s : State D) → IsConfined s → ProgramKeeps IsConfined (write os root i s)
    unfolding write
    write-keeps i s c = write_at-keeps (prefixed root i.filepath) i s (prefixed-within i.filepath) c

    pub copy_from_client-still-IsConfined :
        (path : Bytes) (c : Conn (State D))
        → IsConfined c.state
        → IsConfined (copy_from_client (new_file_system_handler os root) path c).0.state
    copy_from_client-still-IsConfined path c h = rw (clean-render r (p ∷ ns) names) (
        copy_from_client-keeps IsConfined (file_system_handler os root)
          (record { mkdir_keeps = mkdir-IsConfined; write_keeps = write-keeps }) path c h)

    -- Whatever the client sends, when `copyFromClient` over the file system handler returns, every
    -- path that the handler has handed to the operating system is its root, or the root with names
    -- behind it; the root is a cleaned path of names, and the calls are noted from an empty list.
    pub copy_from_client-IsConfined :
        (path : Bytes) (c : Conn (State D))
        → c.state.calls ≡ []
        → IsConfined (copy_from_client (new_file_system_handler os root) path c).0.state
    copy_from_client-IsConfined path c e = copy_from_client-still-IsConfined path c (rw e tt)
