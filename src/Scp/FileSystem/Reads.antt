-- ===== src/Scp/FileSystem/Reads.antt =====
-- scp/filesystem.go: `Glob`, `WalkDir`, `NewDirEntry` and `NewFileEntry`. The disk is a parameter: what
-- its calls give for a path; an opened file gives some bytes, and then its end or an error. Times are those of the last change, for both.
pub mod Inside
use wish.Base.{
  ℕ, Bytes, codes, List, [], ◌∷◌, ◌++◌, Bool, true, false, not, Option, none, some, bytes_eq,
  if◌then◌else◌,
}
use wish.Scp.Entry.{FileEntry, DirInfo}
use wish.Scp.Send.{Visit}
use wish.Scp.FileSystem.{is_under, prefixed, traversal}

pub record FileStat : Type 0 where
  pub name : Bytes
  pub mode : ℕ
  pub size : ℕ
  pub mod_time : ℕ

-- A value, or an error.
pub data Read (A : Type 0) : Type 0 where
  got : A → Read A
  not_read : Bytes → Read A

pub record Disk : Type 0 where
  pub glob : Bytes → Read (List Bytes)
  pub rel : Bytes → Bytes → Read Bytes
  pub walk_dir : Bytes → List Visit × Option Bytes
  pub stat : Bytes → Read FileStat
  pub contents : Bytes → Read (Bytes × Bool)

abbrev pub at_path : {A : Type 0} → (Bytes → Read A) → Option Bytes → Read A
at_path k none = not_read traversal
at_path k (some p) = k p

abbrev pub and_read : {A B : Type 0} → (A → Read B) → Read A → Read B
and_read k (got a) = k a
and_read k (not_read e) = not_read e

module _ (disk : Disk) (root : Bytes) where
  -- The matches in the root, relative to it; the first that `Rel` refuses ends the loop.
  unfoldable pub safe_matches : List Bytes → Read (List Bytes)
  unfolding is_under
  safe_matches [] = got []
  safe_matches (m ∷ ms) =
      let rest = safe_matches ms in
      if is_under root m
      then and_read (λ r. and_read (λ rs. got (r ∷ rs)) rest) (disk.rel root m)
      else rest

  -- `Glob`
  unfoldable pub glob : Bytes → Read (List Bytes)
  unfolding prefixed safe_matches
  glob s = at_path (λ p. and_read safe_matches (disk.glob p)) (prefixed root s)

  -- The visits of a walk that reach the function of the caller: not those of the root, of which an error
  -- ends the walk.
  unfoldable pub served : List Visit → Option Bytes → List Visit × Option Bytes
  unfolding bytes_eq
  served [] e = ([], e)
  served (v ∷ vs) e =
      let (ws, f) = served vs e in
      if bytes_eq v.path root
      then elim v.failed [ none ↦ (ws, f) | some x ↦ ([], some x) ]
      else (v ∷ ws, f)

  abbrev pub walk_at : Option Bytes → List Visit × Option Bytes
  walk_at none = ([], some traversal)
  walk_at (some p) = let (vs, e) = disk.walk_dir p in served vs e

  -- `WalkDir`
  unfoldable pub walk_dir : Bytes → List Visit × Option Bytes
  unfolding prefixed served
  walk_dir path = walk_at (prefixed root path)

  abbrev pub dir_at : Bytes → Read DirInfo
  dir_at p =
      and_read
        (λ i. got (record {
          name = i.name;
          filepath = p;
          mode = i.mode;
          atime = i.mod_time;
          mtime = i.mod_time;
        }))
        (disk.stat p)

  -- `NewDirEntry`
  unfoldable pub new_dir_entry : Bytes → Read DirInfo
  unfolding prefixed
  new_dir_entry name = at_path dir_at (prefixed root name)

  abbrev pub file_at : Bytes → Read FileEntry
  file_at p =
      and_read
        (λ i.
          and_read
            (λ b. got (record {
              name = i.name;
              filepath = p;
              mode = i.mode;
              size = i.size;
              contents = b.0;
              broken = b.1;
              atime = i.mod_time;
              mtime = i.mod_time;
            }))
            (disk.contents p))
        (disk.stat p)

  -- `NewFileEntry`
  unfoldable pub new_file_entry : Bytes → Read FileEntry
  unfolding prefixed
  new_file_entry name = at_path file_at (prefixed root name)
