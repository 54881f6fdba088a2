-- ===== src/Middleware.antt =====
-- options.go: `WithMiddleware`, and the small middlewares: accesscontrol/accesscontrol.go,
-- activeterm/activeterm.go, comment/comment.go, elapsed/elapsed.go, logging/logging.go and
-- recover/recover.go.
pub mod Chain
pub mod Gates
pub mod Recovery
pub mod Tests
use wish.Base.{
  ℕ, ◌+◌, ◌-◌, Bytes, codes, List, [], ◌∷◌, ◌++◌, Bool, true, false, Option, none, some, bytes_eq,
  if◌then◌else◌,
}
use wish.Session.{
  Pty, Session, Event, stdout, stderr, log, exit, World, Ran, Action, Handler, Middleware, and_then,
  ◌>>◌, emit, nothing, print, println,
}

unfoldable pub is_allowed : List Bytes → Bytes → Bool
unfolding bytes_eq
is_allowed [] name = false
is_allowed (cmd ∷ cmds) name = if bytes_eq name cmd then true else is_allowed cmds name

abbrev pub elapsed_format : Bytes
elapsed_format = codes "elapsed time: %v\n"

module _ {S : Type 0} where
  -- The loop `for _, m := range mw { h = m(h) }`.
  unfoldable pub compose : List (Middleware S) → Handler S → Handler S
  compose [] h = h
  compose (m ∷ mw) h = compose mw (m h)

  abbrev pub no_handler : Handler S
  no_handler s = nothing

  -- The handler that the option `WithMiddleware` sets.
  unfoldable pub with_middleware : List (Middleware S) → Handler S
  unfolding compose
  with_middleware mw = compose mw no_handler

  abbrev refuse_command : Bytes → Action S
  refuse_command name =
      emit (stdout (codes "Command is not allowed: " ++ name ++ codes "\n")) >> emit (exit 1)

  abbrev check_command : List Bytes → List Bytes → Action S → Action S
  check_command cmds [] next = next
  check_command cmds (name ∷ args) next = if is_allowed cmds name then next else refuse_command name

  unfoldable pub access_control : List Bytes → Middleware S
  unfolding is_allowed
  access_control cmds sh s = check_command cmds s.command (sh s)

  abbrev check_pty : Option Pty → Action S → Action S
  check_pty (some p) next = next
  check_pty none next = println (codes "Requires an active PTY") >> emit (exit 1)

  unfoldable pub active_term : Middleware S
  unfolding println
  active_term next s = check_pty s.pty (next s)

  unfoldable pub comment : Bytes → Middleware S
  unfolding println
  comment text sh s = sh s >> println text

  -- `show` is what `fmt` makes of the format and the duration.
  unfoldable pub elapsed_with_format : (Bytes → ℕ → Bytes) → Bytes → Middleware S
  unfolding print
  elapsed_with_format show format sh s w = (sh s >> λ w'. print (show format (w'.now - w.now)) w') w

  unfoldable pub elapsed : (Bytes → ℕ → Bytes) → Middleware S
  unfolding elapsed_with_format
  elapsed show = elapsed_with_format show elapsed_format

-- What the loggers are handed. The terminal's fields are empty where there is none.
pub record Connect : Type 0 where
  pub user : Bytes
  pub remote_addr : Bytes
  pub public_key : Bool
  pub command : List Bytes
  pub pty : Pty
  pub client_version : Bytes

pub record Disconnect : Type 0 where
  pub remote_addr : Bytes
  pub duration : ℕ

abbrev no_pty : Pty
no_pty = record { term = []; width = 0; height = 0 }

abbrev or_no_pty : Option Pty → Pty
or_no_pty none = no_pty
or_no_pty (some p) = p

abbrev has_key : Option Bytes → Bool
has_key none = false
has_key (some k) = true

unfoldable pub connect_of : Session → Connect
connect_of s = record {
  user = s.user;
  remote_addr = s.remote_addr;
  public_key = has_key s.public_key;
  command = s.command;
  pty = or_no_pty s.pty;
  client_version = s.client_version;
}

-- The texts that a logger makes of the two; a structured logger is another such pair.
pub record Logger : Type 0 where
  pub connected : Connect → Bytes
  pub disconnected : Disconnect → Bytes

module _ {S : Type 0} where
  unfoldable pub logging : Logger → Middleware S
  unfolding connect_of
  logging l next s w =
      (emit (log (l.connected (connect_of s))) >> next s >> λ w'.
      emit
        (log (l.disconnected (record { remote_addr = s.remote_addr; duration = w'.now - w.now })))
        w')
        w

  -- `guard`: a panic becomes a line of the log; `trace` is the text for the value and the stack.
  abbrev pub recovered : (Bytes → Bytes) → Ran S → Ran S
  recovered trace (w, none) = (w, none)
  recovered trace (w, some v) = emit (log (trace v)) w

  unfoldable pub guard : (Bytes → Bytes) → Action S → Action S
  guard trace fn w = recovered trace (fn w)

  -- `recover.MiddlewareWithLogger`
  unfoldable pub recover : (Bytes → Bytes) → List (Middleware S) → Middleware S
  unfolding guard compose
  recover trace mw sh s = guard trace (compose mw no_handler s) >> guard trace (sh s)
