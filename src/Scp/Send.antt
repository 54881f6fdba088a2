-- ===== src/Scp/Send.antt =====
-- scp/scp.go: `Append` of `RootEntry` and `DirEntry`; scp/copy_to_client.go: `copyToClient` and `closeAll`.
-- The handler is a parameter. Its `WalkDir` calls the function that it is given on one path after the
-- other, until that returns an error; what it visits is a list here.
pub mod Kept
pub mod Invariant
pub mod Closed
pub mod Given
pub mod Apart
pub mod Rebuilt
pub mod Whole
pub mod Misplaced
use wish.Base.{
  ℕ, ◌+◌, Bytes, codes, List, [], ◌∷◌, ◌++◌, Bool, true, false, Option, none, some, bytes_eq,
  has_prefix, if◌then◌else◌,
}
use wish.FilePath.{clean, dir as dir_of}
use wish.Scp.Entry.{
  FileEntry, DirInfo, Entry, Entries, file, dir, nil, cons, Writer, WriteError, write_entries,
}
use wish.Scp.Info.{Info}

unfoldable pub snoc : Entries → Entry → Entries
snoc nil e = cons e nil
snoc (cons c cs) e = cons c (snoc cs e)

abbrev pub path_of : Entry → Bytes
path_of (file f) = f.filepath
path_of (dir d cs) = d.filepath

-- `normalizePath`, on unix
abbrev pub normalize_path : Bytes → Bytes
normalize_path p = clean p

-- The loop of both `Append`s: the first directory that is the parent takes the entry, the first one of
-- which the path is a prefix of the parent's hands it to its children, and the end of the list takes
-- it where none does.
unfoldable pub append_in : Bytes → Entry → Entries → Entries
unfolding snoc bytes_eq has_prefix clean
append_in parent e nil = cons e nil
append_in parent e (cons (file f) es) = cons (file f) (append_in parent e es)
append_in parent e (cons (dir d cs) es) =
    let deeper = append_in parent e cs in
    let later = append_in parent e es in
    if bytes_eq d.filepath parent
    then cons (dir d (snoc cs e)) es
    else if has_prefix parent (normalize_path d.filepath)
    then cons (dir d deeper) es
    else cons (dir d cs) later

-- `RootEntry.Append`
unfoldable pub append_entry : Entry → Entries → Entries
unfolding append_in dir_of
append_entry e es = append_in (normalize_path (dir_of (path_of e))) e es

-- What `NewFileEntry` returns: an entry or an error, and a closing function or nil.
pub record Opened (S : Type 0) : Type 0 where
  pub state : S
  pub closer : Option (S → S)
  pub entry : FileEntry
  pub failed : Option Bytes

-- A call of the function that `WalkDir` is given.
pub record Visit : Type 0 where
  pub path : Bytes
  pub is_dir : Bool
  pub failed : Option Bytes

pub record CopyToClientHandler (S : Type 0) : Type 0 where
  pub glob : Bytes → S → S × (List Bytes × Option Bytes)
  pub walk_dir : Bytes → S → List Visit × Option Bytes
  pub new_dir_entry : Bytes → S → S × (DirInfo × Option Bytes)
  pub new_file_entry : Bytes → S → Opened S

-- The variables of `copyToClient`.
pub record Sending (S : Type 0) : Type 0 where
  pub state : S
  pub root_entry : Entries
  pub closers : List (Option (S → S))

pub data SendError : Type 0 where
  handler_error : Bytes → SendError
  no_match : Bytes → SendError
  write_error : WriteError → SendError

-- `closeAll`
unfoldable pub close_all : {S : Type 0} → List (Option (S → S)) → S → S
close_all [] s = s
close_all (none ∷ cs) s = close_all cs s
close_all (some close ∷ cs) s = close_all cs (close s)

abbrev pub Sent : Type 0 → Type 0
Sent S = Sending S × Option SendError

module _ {S : Type 0} (h : CopyToClientHandler S) where
  abbrev pub if_sent : (Sending S → Sent S) → Sent S → Sent S
  if_sent k (v, none) = k v
  if_sent k (v, some e) = (v, some e)

  abbrev pub wrap : Option Bytes → Option SendError
  wrap none = none
  wrap (some e) = some (handler_error e)

  -- The closer is kept also where there is an error.
  abbrev pub file_opened : Opened S → Sending S → Sent S
  file_opened o v = elim o.failed [
    | some e ↦
        (record v { state = o.state; closers = v.closers ++ o.closer ∷ [] }, some (handler_error e))
    | none ↦ (
      record v {
        state = o.state;
        closers = v.closers ++ o.closer ∷ [];
        root_entry = append_entry (file o.entry) v.root_entry;
      },
      none,
    )
  ]

  unfoldable pub add_file : Bytes → Sending S → Sent S
  unfolding append_entry
  add_file path v = file_opened (h.new_file_entry path v.state) v

  -- In a walk the closer is kept only where there is none.
  abbrev pub walked_file : Opened S → Sending S → Sent S
  walked_file o v = elim o.failed [
    | some e ↦ (record v { state = o.state }, some (handler_error e))
    | none ↦ file_opened o v
  ]

  abbrev pub walked_dir : Sending S → S × (DirInfo × Option Bytes) → Sent S
  walked_dir v (s, (d, some e)) = (record v { state = s }, some (handler_error e))
  walked_dir v (s, (d, none)) =
      (record v { state = s; root_entry = append_entry (dir d nil) v.root_entry }, none)

  abbrev pub visit_at : Bytes → Bool → Option Bytes → Sending S → Sent S
  visit_at path is_dir (some e) v = (v, some (handler_error e))
  visit_at path true none v = walked_dir v (h.new_dir_entry path v.state)
  visit_at path false none v = walked_file (h.new_file_entry path v.state) v

  -- The visits of a walk, until one returns an error; then what `WalkDir` itself returns.
  unfoldable pub walk : List Visit → Option Bytes → Sending S → Sent S
  unfolding append_entry
  walk [] e v = (v, wrap e)
  walk (x ∷ xs) e v = if_sent (walk xs e) (visit_at x.path x.is_dir x.failed v)

  abbrev pub walk_all : List Visit × Option Bytes → Sending S → Sent S
  walk_all (xs, e) v = walk xs e v

  -- The loop over the matches.
  unfoldable pub add_matches : Bool → List Bytes → Sending S → Sent S
  unfolding add_file walk
  add_matches recursive [] v = (v, none)
  add_matches recursive (m ∷ ms) v =
      if_sent (add_matches recursive ms)
        (if recursive then walk_all (h.walk_dir m v.state) v else add_file m v)

  abbrev pub written :
      Writer → Sending S → Writer × Option WriteError → S × Writer × Option SendError
  written w v (w', none) = (close_all v.closers v.state, w', none)
  written w v (w', some e) = (close_all v.closers v.state, w', some (write_error e))

  -- The deferred `closeAll` runs on every way out.
  abbrev pub send_all : Writer → Sent S → S × Writer × Option SendError
  send_all w (v, some e) = (close_all v.closers v.state, w, some e)
  send_all w (v, none) = written w v (write_entries v.root_entry w)

  abbrev pub on_matches :
      Info → Writer → S × (List Bytes × Option Bytes) → S × Writer × Option SendError
  on_matches info w (s, (ms, some e)) = (s, w, some (handler_error e))
  on_matches info w (s, ([], none)) = (s, w, some (no_match info.path))
  on_matches info w (s, (m ∷ ms, none)) =
      send_all w
        (add_matches info.recursive (m ∷ ms) (record { state = s; root_entry = nil; closers = [] }))

  unfoldable pub copy_to_client : Info → Writer → S → S × Writer × Option SendError
  unfolding add_matches close_all write_entries
  copy_to_client info w s = on_matches info w (h.glob info.path s)
