-- ===== src/Cmd/Tests.antt =====
-- A command of which one handle is set, and one of which all are.
use wish.Base.{inl, inr, Bytes, codes, [], Bool, true, false, none, some, ◌≡◌, refl}
use wish.Cmd.{
  Cmd, Runner, given, of_session, session_stderr, or_else, set_stdin, set_stdout, set_stderr,
  perform,
}
use wish.Cmd.Wiring.{as_run_error, then_waited, perform-handles}

abbrev half_set : Cmd Bool
half_set = record {
  exec = record { name = codes "htop"; args = []; env = []; dir = [] };
  stdin = some true;
  stdout = none;
  stderr = none;
}

-- Nothing can be run, and a terminal starts everything.
abbrev broken : Runner Bool Bool Bytes
broken = record {
  run_exec = λ x i o e w. (w, some x.name);
  start = λ p x w. (x.name, none);
  wait = λ x w. (w, none);
}

perform-handles_example :
    (perform broken (set_stdin true (set_stdout false (set_stderr true half_set))) none []
      ≡ broken.run_exec half_set.exec (given true) (given false) (given true) [])
    × (perform broken half_set none []
        ≡ as_run_error (
            broken.run_exec half_set.exec
              (or_else of_session half_set.stdin)
              (or_else of_session half_set.stdout)
              (or_else session_stderr half_set.stderr)
              []))
    × (perform broken half_set (some true) []
        ≡ then_waited {P = Bool} broken half_set.exec (broken.start true half_set.exec []))
perform-handles_example =
    perform-handles broken true false true half_set half_set none true [] (inr (inl refl))
