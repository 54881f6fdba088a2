-- ===== src/Cmd/Wiring.antt =====
-- The handles of a command, with and without a terminal.
use wish.Base.{Bytes, codes, ◌++◌, false, ◌&&◌, ◌⊎◌, inl, inr, Option, none, some, ◌≡◌, refl}
use mathlib.Core.Bool.{and-false}
use wish.Cmd.{
  Exec, is_set, waited, Runner, wrapped, perform, carried_out, do_run, or_else, of_session,
  session_stderr, Cmd, given, set_stdin, set_stdout, set_stderr, has_custom_stdio, run,
}

-- The error of a command that ran on the session.
abbrev pub as_run_error : {W : Type 0} → W × Option Bytes → W × Option Bytes
as_run_error (w, none) = (w, none)
as_run_error (w, some e) = (w, some (codes "run command: " ++ e))

-- A handle or more was not set.
abbrev pub LacksHandle : {H : Type 0} → Cmd H → Type 0
LacksHandle d = (d.stdin ≡ none) ⊎ ((d.stdout ≡ none) ⊎ (d.stderr ≡ none))

module _ {H P W : Type 0} (runner : Runner H P W) where
  wrapped-as_run_error :
      (x : W × Option Bytes) → wrapped {P = P} runner false none x ≡ as_run_error x
  wrapped-as_run_error (w, none) = refl
  wrapped-as_run_error (w, some e) = refl

  pub perform-set :
      (i o e : H) (c : Cmd H) (pty : Option P) (w : W)
      → perform runner (set_stdin i (set_stdout o (set_stderr e c))) pty w
        ≡ runner.run_exec c.exec (given i) (given o) (given e) w
  unfolding perform run carried_out set_stdin set_stdout set_stderr has_custom_stdio
  perform-set i o e c pty w = refl

  -- On a terminal: the command is waited for if it could be started, and else the error is that of the start.
  abbrev pub then_waited : Exec → W × Option Bytes → W × Option Bytes
  then_waited x (w, none) = runner.wait x w
  then_waited x (w, some e) = (w, some e)

  do_run-then_waited :
      (x : Exec) (r : W × Option Bytes) → waited {P = P} runner x r ≡ then_waited x r
  do_run-then_waited x (w, none) = refl
  do_run-then_waited x (w, some e) = refl

  not_custom : (d : Cmd H) → LacksHandle d → has_custom_stdio d ≡ false
  unfolding has_custom_stdio
  not_custom d (inl h) = rw h refl
  not_custom d (inr (inl h)) = rw (h, and-false (is_set d.stdin)) refl
  not_custom d (inr (inr h)) = rw h (and-false (is_set d.stdin && is_set d.stdout))

  pub perform-on_pty :
      (d : Cmd H) (p : P) (w : W)
      → LacksHandle d
      → perform runner d (some p) w ≡ then_waited d.exec (runner.start p d.exec w)
  unfolding perform run carried_out do_run
  perform-on_pty d p w h = rw (not_custom d h) (do_run-then_waited d.exec (runner.start p d.exec w))

  -- A command of which all three handles were set runs on them, in any session, and what it returns is not
  -- changed. One of which a handle is missing runs, in a session without a terminal, on the handles that were set
  -- and on the session in the place of the others, with "run command: " before its error; and in a session with a
  -- terminal it is started on that, and waited for if it could be started, and the handles are not used.
  pub perform-handles :
      (i o e : H) (c d : Cmd H) (pty : Option P) (p : P) (w : W)
      → LacksHandle d
      → (perform runner (set_stdin i (set_stdout o (set_stderr e c))) pty w
          ≡ runner.run_exec c.exec (given i) (given o) (given e) w)
        × (perform runner d none w
            ≡ as_run_error (
                runner.run_exec d.exec
                  (or_else of_session d.stdin)
                  (or_else of_session d.stdout)
                  (or_else session_stderr d.stderr)
                  w))
        × (perform runner d (some p) w ≡ then_waited d.exec (runner.start p d.exec w))
  unfolding perform run carried_out
  perform-handles i o e c d pty p w h = (
    perform-set i o e c pty w,
    rw (not_custom d h) (
        wrapped-as_run_error (
          runner.run_exec d.exec (or_else of_session d.stdin) (or_else of_session d.stdout)
            (or_else session_stderr d.stderr) w)),
    perform-on_pty d p w h,
  )
