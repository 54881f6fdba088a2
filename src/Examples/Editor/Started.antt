-- ===== src/Examples/Editor/Started.antt =====
-- What the example starts for a key, and what it shows afterwards.
use wish.Base.{Bytes, bytes_eq, codes, List, [], ◌∷◌, ◌++◌, Bool, Option, none, some, ◌≡◌, refl}
use wish.Session.{World, log}
use wish.Cmd.{Cmd, given, Runner, set_stdin, set_stdout, set_stderr, command_context}
use wish.Cmd.Wiring.{perform-set}
use wish.Examples.Editor.{Edit, found, Model, update, view, finished, pressed}

-- What is shown after a program has returned.
abbrev pub shown : (style err_style : Bytes → Bytes) → Option Bytes → Bytes
shown style err_style none =
    style (codes "Press 'e' to edit, 's' to hop into a shell, or 'q' to quit...\n")
shown style err_style (some e) = err_style (e ++ codes "\n")

abbrev pub logged : {S : Type 0} → World S × Option Bytes → World S
logged (w, none) = w
logged (w, some e) = record w { events = w.events ++ log (codes "editor finished " ++ e) ∷ [] }

module _ {H P S : Type 0} (windows : Bool) (runner : Runner H P (World S)) (attach : Cmd H → Cmd H)
    (pty : Option P) (stdin stdout stderr : H) where
  -- The editor, with its own name before the other arguments, on the three handles.
  abbrev pub edited : (path name : Bytes) → List Bytes → World S → World S × Option Bytes
  edited path name rest w =
      runner.run_exec (record { name = path; args = name ∷ rest; env = []; dir = [] }) (given stdin)
        (given stdout) (given stderr) w

  finished-shown :
      (edit : Edit) (style err_style : Bytes → Bytes) (m : Model) (r : World S × Option Bytes)
      → (view style err_style
            (finished edit windows runner attach pty (codes "editor finished ") m r).0
          ≡ shown style err_style r.1)
        × ((finished edit windows runner attach pty (codes "editor finished ") m r).1 ≡ logged r)
  unfolding view update
  finished-shown edit style err_style m (w, none) = (refl, refl)
  finished-shown edit style err_style m (w, some e) = (refl, refl)

  -- The key "e", if an editor is found and Bubble Tea sets the three handles of a command: the editor runs on those
  -- handles, whether the session has a terminal of its own or not. Since the arguments of an `exec.Cmd` begin with the
  -- name of the program, and `wish.Command` puts the path before them, the name of the editor is the first of the
  -- arguments that the editor gets. What it returns is logged if it is an error, and shown as it is; where it is
  -- none, an error that was shown before is gone.
  pub pressed-edited :
      (path name : Bytes) (rest : List Bytes) (style err_style : Bytes → Bytes) (m : Model)
      (w : World S)
      → ((c : Cmd H) → attach c ≡ set_stdin stdin (set_stdout stdout (set_stderr stderr c)))
      → let played =
          pressed
            (found (record { path = path; args = name ∷ rest }))
            windows
            runner
            attach
            pty
            (codes "e")
            m
            w in
        let r = edited path name rest w in
        (view style err_style played.0 ≡ shown style err_style r.1) × (played.1 ≡ logged r)
  unfolding pressed update command_context bytes_eq
  pressed-edited path name rest style err_style m w k =
      rw
        (
          k (command_context path (name ∷ rest)),
          perform-set runner stdin stdout stderr (command_context path (name ∷ rest)) pty w,
        )
        (finished-shown (found (record { path = path; args = name ∷ rest })) style err_style m
          (edited path name rest w))
