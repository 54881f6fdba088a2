-- ===== src/Examples/Editor/Tests.antt =====
-- An editor that fails, in a session with a terminal.
use wish.Base.{ℕ, Bytes, codes, List, [], ◌∷◌, false, none, some, ◌≡◌, refl}
use wish.Session.{World}
use wish.Cmd.{Cmd, Runner, set_stdin, set_stdout, set_stderr}
use wish.Middleware.Tests.{still}
use wish.Examples.Editor.{found, first_model, view, pressed}
use wish.Examples.Editor.Started.{shown, logged, edited, pressed-edited}

abbrev failing : Runner ℕ ℕ (World ℕ)
failing = record {
  run_exec = λ x i o e w. (w, some x.name);
  start = λ p x w. (w, none);
  wait = λ x w. (w, none);
}

-- What Bubble Tea does to a command, with handles 0, 1 and 2.
abbrev attached : Cmd ℕ → Cmd ℕ
unfolding set_stdin set_stdout set_stderr
attached c = set_stdin 0 (set_stdout 1 (set_stderr 2 c))

abbrev nano_path : Bytes
nano_path = codes "/bin/nano"

abbrev nano_rest : List Bytes
nano_rest = codes "file.txt" ∷ []

abbrev plainly : Bytes → Bytes
plainly t = t

pressed-edited_example :
    let played =
      pressed
        (found (record { path = nano_path; args = codes "nano" ∷ nano_rest }))
        false
        failing
        attached
        (some 5)
        (codes "e")
        first_model
        still in
    let r =
      edited {P = ℕ} false failing attached
        (some 5)
        0
        1
        2
        nano_path
        (codes "nano")
        nano_rest
        still in
    (view plainly plainly played.0 ≡ shown plainly plainly r.1) × (played.1 ≡ logged r)
unfolding set_stdin set_stdout set_stderr
pressed-edited_example =
    pressed-edited false failing attached (some 5) 0 1 2 nano_path (codes "nano") nano_rest plainly
      plainly first_model still (λ c. refl)
