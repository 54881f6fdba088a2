-- ===== src/Scp/FileSystem/Tests.antt =====
-- Receiving into a directory at a concrete tree, on a disk that keeps all that it is told on a tape.
use wish.Base.{
  ◌+◌, Bytes, codes, [], ◌∷◌, ◌++◌, true, none, has_byte, has_byte-Lacks, bytes_eq, replicate, ◌≡◌,
  refl, arith, append-nil, append_assoc, inl, inr, All, false,
}
use wish.FilePath.{IsName, render}
use wish.Scp.Entry.{FileEntry, DirInfo, Entries, file, dir, nil, cons, is_valid_name}
use wish.Scp.Stream.{newline}
use wish.Scp.Receive.{copy_from_client, finished}
use wish.Scp.RoundTrip.Texts.{known}
use wish.Scp.RoundTrip.{SendableFile, SendableDir, AllSendable, unpack_all, acks_all}
use wish.Scp.FileSystem.{Os, State, new_file_system_handler}
use wish.Scp.FileSystem.Stores.{Works, file_system_stores, Below-Accepts}
use wish.Scp.FileSystem.Tree.{sending, copy_from_client-unpack_all}

abbrev pub tape : Os Bytes
tape = record {
  chtimes = λ p a m d. (d ++ 84 ∷ p, none);
  mkdir = λ p m d. (d ++ 68 ∷ p, none);
  open_file = λ p m d. (d ++ 70 ∷ p, none);
  write = λ p b d. (d ++ b, none);
  close = λ p d. (d ++ 46 ∷ [], none);
}

abbrev pub tape_works : Works tape
tape_works = record {
  timed = λ p a m d. d ++ 84 ∷ p;
  made = λ p m d. d ++ 68 ∷ p;
  opened_at = λ p m d. d ++ 70 ∷ p;
  appended = λ p b d. d ++ b;
  closed_at = λ p d. d ++ 46 ∷ [];
  chtimes_lem = λ p a m d. refl;
  mkdir_lem = λ p m d. refl;
  open_lem = λ p m d. refl;
  write_lem = λ p b d. refl;
  close_lem = λ p d. refl;
  appended_none = λ p d. append-nil d;
  appended_twice = λ p b c d. append_assoc d b c;
}

abbrev report : FileEntry
report = record {
  name = codes "report";
  filepath = codes "/srv/report";
  mode = 420;
  size = 3;
  contents = codes "ok!";
  broken = false;
  atime = 1500000001;
  mtime = 1500000000;
}

abbrev year : DirInfo
year = record {
  name = codes "year";
  filepath = codes "/srv/year";
  mode = 493;
  atime = 0;
  mtime = 0;
}

abbrev reports : Entries
reports = cons (dir year (cons (file report) nil)) nil

srv_name : All IsName (codes "srv" ∷ [])
unfolding bytes_eq has_byte
srv_name = (record { nonempty = refl; not_dot = refl; not_dot_dot = refl; no_slash = refl }, tt)

report-SendableFile : SendableFile report
unfolding is_valid_name has_byte bytes_eq known
report-SendableFile = record {
  valid = refl;
  one_line = has_byte-Lacks newline (codes "report") refl;
  four_digits = omega arith;
  exact = refl;
  int64 = omega arith;
  times_fit = inr (omega arith, omega arith, omega arith, omega arith);
}

year-SendableDir : SendableDir year
unfolding is_valid_name has_byte bytes_eq known
year-SendableDir = record {
  valid = refl;
  one_line = has_byte-Lacks newline (codes "year") refl;
  four_digits = omega arith;
  times_fit = inl refl;
}

reports-AllSendable : AllSendable reports
unfolding AllSendable
reports-AllSendable = ((year-SendableDir, (report-SendableFile, tt)), tt)

abbrev pub blank : State Bytes
blank = record { disk = []; calls = [] }

copy_from_client-unpack_all_example :
    let x =
      copy_from_client
        (new_file_system_handler tape (render true (codes "srv" ∷ [])))
        (render true [])
        (sending reports (1 ∷ 2 ∷ []) blank) in
    (x.1 ≡ finished)
    × (x.0.state
        ≡ unpack_all
            (file_system_stores tape tape_works
              (render true (codes "srv" ∷ []))
              (Below-Accepts tape tape_works true (codes "srv") [] srv_name))
            reports
            (render true [])
            blank)
    × (x.0.replies ≡ replicate (acks_all reports + 2) 0)
copy_from_client-unpack_all_example =
    copy_from_client-unpack_all tape tape_works true (codes "srv") [] srv_name reports true []
      (1 ∷ 2 ∷ []) blank tt reports-AllSendable
