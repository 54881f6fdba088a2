-- ===== src/Cmd.antt =====
-- cmd.go, cmd_unix.go and cmd_windows.go: what `Run` connects a command to, and which error it returns.
-- Starting the command, and a pseudo terminal, are calls of other packages.
pub mod Wiring
pub mod Tests
use wish.Base.{
  Bytes, codes, List, [], ◌∷◌, ◌++◌, Bool, true, false, ◌&&◌, Option, none, some, if◌then◌else◌,
}

-- A handle: the session, its error stream, or one that was set.
pub data Handle (H : Type 0) : Type 0 where
  of_session session_stderr : Handle H
  given : H → Handle H

-- `exec.Cmd`, as far as the code sets it
pub record Exec : Type 0 where
  pub name : Bytes
  pub args : List Bytes
  pub env : List Bytes
  pub dir : Bytes

-- `Cmd`; the session is an argument of what looks at it.
pub record Cmd (H : Type 0) : Type 0 where
  pub exec : Exec
  pub stdin : Option H
  pub stdout : Option H
  pub stderr : Option H

-- How the command is started: with three handles, or on a pseudo terminal.
pub data Started (H P : Type 0) : Type 0 where
  with_stdio : (stdin stdout stderr : Handle H) → Started H P
  on_pty : P → Started H P

abbrev pub is_set : {H : Type 0} → Option H → Bool
is_set none = false
is_set (some h) = true

abbrev pub or_else : {H : Type 0} → Handle H → Option H → Handle H
or_else d none = d
or_else d (some h) = given h

-- What `Run` calls: `Run`, `Wait` of os/exec (on windows `WaitProcess` of xpty), and `Start` of the terminal.
pub record Runner (H P W : Type 0) : Type 0 where
  pub run_exec : Exec → (stdin stdout stderr : Handle H) → W → W × Option Bytes
  pub start : P → Exec → W → W × Option Bytes
  pub wait : Exec → W → W × Option Bytes

module _ {H : Type 0} where
  -- `CommandContext`, and `Command`, which takes the context of the session
  unfoldable pub command_context : Bytes → List Bytes → Cmd H
  command_context name args = record {
    exec = record { name = name; args = args; env = []; dir = [] };
    stdin = none;
    stdout = none;
    stderr = none;
  }

  unfoldable pub set_env : List Bytes → Cmd H → Cmd H
  set_env env c = record c { exec = record c.exec { env = env } }

  unfoldable pub set_dir : Bytes → Cmd H → Cmd H
  set_dir dir c = record c { exec = record c.exec { dir = dir } }

  unfoldable pub set_stdin : H → Cmd H → Cmd H
  set_stdin h c = record c { stdin = some h }

  unfoldable pub set_stdout : H → Cmd H → Cmd H
  set_stdout h c = record c { stdout = some h }

  unfoldable pub set_stderr : H → Cmd H → Cmd H
  set_stderr h c = record c { stderr = some h }

  -- `hasCustomStdio`
  unfoldable pub has_custom_stdio : Cmd H → Bool
  has_custom_stdio c = is_set c.stdin && is_set c.stdout && is_set c.stderr

  abbrev pub wired : {P : Type 0} → Cmd H → Started H P
  wired c =
      with_stdio (or_else of_session c.stdin) (or_else of_session c.stdout)
        (or_else session_stderr c.stderr)

  abbrev pub unless_pty : {P : Type 0} → Cmd H → Option P → Started H P
  unless_pty c none = wired c
  unless_pty c (some p) = on_pty p

  -- How `Run` starts the command: three handles that are all set are used as they are.
  unfoldable pub run : {P : Type 0} → Cmd H → Option P → Started H P
  unfolding has_custom_stdio
  run c pty = if has_custom_stdio c then wired c else unless_pty c pty

module _ {H P W : Type 0} (runner : Runner H P W) where
  -- `doRun`
  abbrev pub waited : Exec → W × Option Bytes → W × Option Bytes
  waited x (w, none) = runner.wait x w
  waited x (w, some e) = (w, some e)

  unfoldable pub do_run : P → Exec → W → W × Option Bytes
  do_run p x w = waited x (runner.start p x w)

  unfoldable pub carried_out : Exec → Started H P → W → W × Option Bytes
  unfolding do_run
  carried_out x (with_stdio i o e) w = runner.run_exec x i o e w
  carried_out x (on_pty p) w = do_run p x w

  abbrev pub wrapped : Bool → Option P → W × Option Bytes → W × Option Bytes
  wrapped false none (w, some e) = (w, some (codes "run command: " ++ e))
  wrapped custom pty x = x

  -- `Run`
  unfoldable pub perform : Cmd H → Option P → W → W × Option Bytes
  unfolding run has_custom_stdio carried_out
  perform c pty w = wrapped (has_custom_stdio c) pty (carried_out c.exec (run c pty) w)
