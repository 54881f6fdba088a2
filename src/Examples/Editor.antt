-- ===== src/Examples/Editor.antt =====
-- examples/bubbletea-exec/main.go: a program that starts an editor or a task viewer in its session. `update` is its
-- `Update`; Bubble Tea, which runs what `update` asks for, and the package editor are parameters.
pub mod Started
pub mod Tests
use wish.Base.{
  Bytes, bytes_eq, codes, List, [], ◌∷◌, ◌++◌, Bool, true, false, ◌||◌, Option, none, some,
  if◌then◌else◌,
}
use wish.Session.{World, log}
use wish.Cmd.{Cmd, Runner, command_context, perform}

-- `exec.Cmd` as `editor.Cmd` returns it; the name of the program stands first in `args`.
pub record EditCmd : Type 0 where
  pub path : Bytes
  pub args : List Bytes

pub data Edit : Type 0 where
  found : EditCmd → Edit
  not_found : Bytes → Edit

-- `tea.Msg`; `cmd_finished` is `cmdFinishedMsg`.
pub data Msg : Type 0 where
  key_msg : Bytes → Msg
  cmd_finished : Option Bytes → Msg
  other_msg : Msg

-- `tea.Cmd`; `exec` is `tea.Exec`, with the text that its callback logs before an error.
pub data TeaCmd (H : Type 0) : Type 0 where
  no_cmd quit : TeaCmd H
  exec : Cmd H → (text : Bytes) → TeaCmd H

-- The session and the styles of the model never change.
pub record Model : Type 0 where
  pub err : Option Bytes

abbrev pub first_model : Model
first_model = record { err = none }

module _ {H : Type 0} (edit : Edit) (windows : Bool) where
  abbrev pub on_edit : Edit → Model → Model × TeaCmd H
  unfolding command_context
  on_edit (not_found e) m = (record m { err = some e }, no_cmd)
  on_edit (found c) m = (m, exec (command_context c.path c.args) (codes "editor finished "))

  abbrev pub viewer : Cmd H
  unfolding command_context
  viewer =
      if windows then command_context (codes "powershell") [] else command_context (codes "htop") []

  abbrev pub on_key : Bytes → Model → Model × TeaCmd H
  unfolding command_context
  on_key k m =
      if bytes_eq k (codes "e")
      then on_edit edit m
      else if bytes_eq k (codes "s")
      then (m, exec viewer (codes "shell finished "))
      else if bytes_eq k (codes "q") || bytes_eq k (codes "ctrl+c")
      then (m, quit)
      else (m, no_cmd)

  -- `Update`
  unfoldable pub update : Msg → Model → Model × TeaCmd H
  unfolding command_context
  update (key_msg k) m = on_key k m
  update (cmd_finished e) m = (record m { err = e }, no_cmd)
  update other_msg m = (m, no_cmd)

-- `View`
unfoldable pub view : (style err_style : Bytes → Bytes) → Model → Bytes
view style err_style m = elim m.err [
  | none ↦ style (codes "Press 'e' to edit, 's' to hop into a shell, or 'q' to quit...\n")
  | some e ↦ err_style (e ++ codes "\n")
]

module _ {H P S : Type 0} (edit : Edit) (windows : Bool) (runner : Runner H P (World S))
    (attach : Cmd H → Cmd H) (pty : Option P) where
  -- The callback: an error is logged, and the model gets the message.
  abbrev pub finished : Bytes → Model → World S × Option Bytes → Model × World S
  unfolding update
  finished text m (w, none) = ((update {H = H} edit windows (cmd_finished none) m).0, w)
  finished text m (w, some e) = (
    (update {H = H} edit windows (cmd_finished (some e)) m).0,
    record w { events = w.events ++ log (text ++ e) ∷ [] },
  )

  abbrev pub run_cmd : Model × TeaCmd H → World S → Model × World S
  unfolding perform update
  run_cmd (m, no_cmd) w = (m, w)
  run_cmd (m, quit) w = (m, w)
  run_cmd (m, exec c text) w = finished text m (perform runner (attach c) pty w)

  -- A key, with what is run for it; `attach` is what Bubble Tea does to a command before it calls its `Run`.
  unfoldable pub pressed : Bytes → Model → World S → Model × World S
  unfolding update perform
  pressed k m = run_cmd (update edit windows (key_msg k) m)
