-- ===== src/Scp/Tests.antt =====
-- Package scp at concrete inputs.
use wish.Base.{
  ℕ, suc, ◌+◌, Bytes, codes, [], ◌∷◌, ◌++◌, true, false, none, some, length, has_byte, bytes_eq,
  ◌≡◌, ◌≢◌, refl,
}
use wish.FilePath.{IsName, render, dot_dot, join_slash, slash}
use wish.Scp.Entry.{FileEntry, DirInfo, Entries, file, dir, nil, cons, Writer, write_entries}
use wish.Scp.Entry.Interrupted.{Reported, write_entries-Reported}
use wish.Scp.Stream.{LimitReader, limit_read}
use wish.Scp.Stream.Limits.{Consumed, limit_read-Consumed}
use wish.Scp.Receive.{Conn, out_of_fuel, copy_from_client, Program, ask, finish, wrote}
use wish.Scp.Receive.Total.{copy_from_client_total}
use wish.Scp.Memory.{memory_handler}
use wish.Scp.FileSystem.{Os, State, prefixed, new_file_system_handler}
use wish.Scp.FileSystem.Confined.{IsConfined, copy_from_client-IsConfined}
use wish.Scp.FileSystem.Roots.{prefixed-roots}

abbrev notes : FileEntry
notes = record {
  name = codes "notes";
  filepath = codes "/srv/notes";
  mode = 420;
  size = 2;
  contents = codes "hi";
  broken = false;
  atime = 1500000001;
  mtime = 1500000000;
}

abbrev docs : DirInfo
docs = record {
  name = codes "docs";
  filepath = codes "/srv/docs";
  mode = 493;
  atime = 0;
  mtime = 0;
}

abbrev tree : Entries
tree = cons (dir docs (cons (file notes) nil)) nil

pub srv-IsName : IsName (codes "srv")
unfolding bytes_eq has_byte
srv-IsName = record { nonempty = refl; not_dot = refl; not_dot_dot = refl; no_slash = refl }

abbrev session_of : {S : Type 0} → Bytes → S → Conn S
session_of text s = record {
  stream = record { rest = text; cuts = 0 ∷ 3 ∷ []; broken = false };
  replies = [];
  state = s;
}

-- A disk that only counts the calls.
abbrev pub counting : Os ℕ
counting = record {
  chtimes = λ p a m d. (suc d, none);
  mkdir = λ p m d. (suc d, none);
  open_file = λ p m d. (suc d, none);
  write = λ p b d. (suc d, none);
  close = λ p d. (suc d, none);
}

abbrev climbing_request : Conn (State ℕ)
climbing_request =
    session_of (codes "C0644 2 notes\nhi" ++ 0 ∷ []) (record { disk = 0; calls = [] })

copy_from_client-IsConfined_example :
    IsConfined counting true
      (codes "srv")
      []
      (copy_from_client
        (new_file_system_handler counting (render true (codes "srv" ∷ [])))
        (codes "../../etc")
        climbing_request).0.state
copy_from_client-IsConfined_example =
    copy_from_client-IsConfined counting true (codes "srv") [] (srv-IsName, tt) (codes "../../etc")
      climbing_request refl

copy_from_client_total_example :
    (copy_from_client memory_handler (codes "/") (session_of (codes "X\n") [])).1 ≢ out_of_fuel
copy_from_client_total_example =
    copy_from_client_total memory_handler (codes "/") (session_of (codes "X\n") [])

abbrev two_reads : Program ℕ
two_reads = ask 2 (λ b st. ask 9 (λ b' st'. finish 0 (wrote (length b + length b'))))

abbrev five_left : LimitReader
five_left = record { r = record { rest = codes "abcdefgh"; cuts = []; broken = false }; left = 5 }

abbrev tight : Writer
tight = record { sent = []; room = 7 }

write_entries-Reported_example : Reported tree tight (write_entries tree tight)
write_entries-Reported_example = write_entries-Reported tree tight

limit_read-Consumed_example :
    Consumed five_left (limit_read 3 five_left).reader (length (limit_read 3 five_left).bytes)
limit_read-Consumed_example = limit_read-Consumed 3 five_left

prefixed-roots_example :
    (prefixed (codes ".") (join_slash (codes "srv" ∷ [])) ≡ none)
    × (prefixed (slash ∷ []) (slash ∷ join_slash (codes "srv" ∷ [])) ≡ none)
    × (prefixed dot_dot (codes "../../" ++ codes "srv") ≡ some (codes "../../" ++ codes "srv"))
prefixed-roots_example = prefixed-roots (codes "srv") [] (srv-IsName, tt)
