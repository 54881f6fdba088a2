-- ===== src/Examples/Script.antt =====
-- examples/exec/main.go: a server that runs a script on the terminal of each session.
pub mod Played
pub mod Tests
use wish.Base.{Bytes, codes, List, [], ◌∷◌, Option, none, some}
use wish.Session.{Session, Pty, World, Ran, Action, Handler, Middleware, and_then, ◌>>◌, fatalln}
use wish.Cmd.{Cmd, Runner, command_context, perform}
use wish.Middleware.{Logger, active_term, logging, with_middleware}

-- `allocated` is the terminal that the server allocates for the one that a session asks for.
module _ {H P S : Type 0} (runner : Runner H P (World S)) (allocated : Pty → P) where
  abbrev pub terminal_of : Option Pty → Option P
  terminal_of none = none
  terminal_of (some p) = some (allocated p)

  abbrev pub script : Cmd H
  unfolding command_context
  script = command_context (codes "bash") (codes "example.sh" ∷ [])

  -- `if err := cmd.Run(); err != nil { wish.Fatalln(s, err) }`
  abbrev pub unless_ran : World S × Option Bytes → Ran S
  unfolding fatalln
  unless_ran (w, none) = (w, none)
  unless_ran (w, some e) = fatalln e w

  -- The middleware of `main`, which goes on to the next handler in any case.
  unfoldable pub run_script : Middleware S
  unfolding perform command_context fatalln
  run_script next s w = and_then (next s) (unless_ran (perform runner script (terminal_of s.pty) w))

  -- The handler of the server
  unfoldable pub script_handler : Logger → Handler S
  unfolding with_middleware active_term logging run_script
  script_handler logger = with_middleware (run_script ∷ active_term ∷ logging logger ∷ [])
