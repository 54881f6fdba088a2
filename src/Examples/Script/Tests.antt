-- ===== src/Examples/Script/Tests.antt =====
-- A session with a terminal on which bash cannot be started, and one without.
use wish.Base.{ℕ, codes, ◌∷◌, ◌++◌, none, some, ◌≡◌, refl}
use wish.Session.{Session, Pty, World, stdout, exit}
use wish.Cmd.{Runner}
use wish.Middleware.Tests.{visiting, still, plain}
use wish.Examples.Script.{script_handler}
use wish.Cmd.Wiring.{then_waited}
use wish.Examples.Script.Played.{bash, begun, last_line, ended, script_handler-ended}

abbrev missing : Runner ℕ ℕ (World ℕ)
missing = record {
  run_exec = λ x i o e w. (w, none);
  start = λ p x w. (w, some x.name);
  wait = λ x w. (w, none);
}

abbrev small : Pty
small = record { term = codes "xterm"; width = 20; height = 10 }

abbrev on_small : Session
on_small = record visiting { pty = some small }

abbrev number_of : Pty → ℕ
number_of p = p.width

script_handler-ended_example :
    (script_handler missing number_of plain on_small still
      ≡ ended missing number_of plain on_small still (
          then_waited missing bash
            (missing.start 20 bash (begun missing number_of plain on_small still))))
    × (script_handler missing number_of plain visiting still ≡ (
      record still {
        events =
            (begun missing number_of plain visiting still).events
            ++ stdout (codes "Requires an active PTY\n")
              ∷ exit 1
              ∷ last_line missing number_of plain visiting still still;
      },
      none,
    ))
script_handler-ended_example =
    script_handler-ended missing number_of plain on_small still visiting small refl refl
