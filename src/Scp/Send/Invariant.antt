-- ===== src/Scp/Send/Invariant.antt =====
-- A property of the variables of `copyToClient` that holds at the start, and that each new entry keeps,
-- holds when the loop over the matches ends, wherever it ends.
use wish.Base.{Bytes, List, [], ◌∷◌, Bool, true, false, Option, none, some}
use wish.Scp.Send.{
  Visit, CopyToClientHandler, Sending, Sent, if_sent, add_file, walked_file, walked_dir, visit_at,
  walk, add_matches,
}

module _ {S : Type 0} (h : CopyToClientHandler S) (I : Sending S → Type 0) where
  pub record Keeps : Type 0 where
    pub file_keeps : (path : Bytes) (v : Sending S) → I v → I (add_file h path v).0
    pub walked_file_keeps :
        (path : Bytes) (v : Sending S) → I v → I (walked_file h (h.new_file_entry path v.state) v).0
    pub walked_dir_keeps :
        (path : Bytes) (v : Sending S) → I v → I (walked_dir h v (h.new_dir_entry path v.state)).0

  if_sent-keeps :
      (k : Sending S → Sent S) (x : Sent S)
      → ((v : Sending S) → I v → I (k v).0)
      → I x.0
      → I (if_sent h k x).0
  if_sent-keeps k (v, none) f p = f v p
  if_sent-keeps k (v, some e) f p = p

  module _ (keeps : Keeps) where
    visit_at-keeps :
        (path : Bytes) (is_dir : Bool) (e : Option Bytes) (v : Sending S)
        → I v
        → I (visit_at h path is_dir e v).0
    visit_at-keeps path b (some e) v p = p
    visit_at-keeps path true none v p = keeps.walked_dir_keeps path v p
    visit_at-keeps path false none v p = keeps.walked_file_keeps path v p

    walk-keeps : (xs : List Visit) (e : Option Bytes) (v : Sending S) → I v → I (walk h xs e v).0
    unfolding walk
    walk-keeps [] e v p = p
    walk-keeps (x ∷ xs) e v p =
        if_sent-keeps (walk h xs e) (visit_at h x.path x.is_dir x.failed v) (walk-keeps xs e)
          (visit_at-keeps x.path x.is_dir x.failed v p)

    pub add_matches-keeps :
        (recursive : Bool) (ms : List Bytes) (v : Sending S)
        → I v
        → I (add_matches h recursive ms v).0
    unfolding add_matches
    add_matches-keeps r [] v p = p
    add_matches-keeps true (m ∷ ms) v p =
        let x = h.walk_dir m v.state in
        if_sent-keeps (add_matches h true ms) (walk h x.0 x.1 v) (add_matches-keeps true ms)
          (walk-keeps x.0 x.1 v p)
    add_matches-keeps false (m ∷ ms) v p =
        if_sent-keeps (add_matches h false ms) (add_file h m v) (add_matches-keeps false ms)
          (keeps.file_keeps m v p)
