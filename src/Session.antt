-- ===== src/Session.antt =====
-- wish.go: the printing and ending of a session, and the session itself (of the package ssh, which
-- the program only calls) as far as the program looks at it. A handler is a function of the session
-- and of the world; the world is what has been sent, logged and closed so far, the clock, and the
-- state `S` of whatever the application brings. A handler may panic, with a value.
use wish.Base.{ℕ, Bytes, codes, List, [], ◌∷◌, ◌++◌, Option, none, some}

pub record Pty : Type 0 where
  pub term : Bytes
  pub width : ℕ
  pub height : ℕ

pub record Session : Type 0 where
  pub user : Bytes
  pub remote_addr : Bytes
  pub command : List Bytes
  pub public_key : Option Bytes
  pub pty : Option Pty
  pub client_version : Bytes

pub data Event : Type 0 where
  stdout stderr log : Bytes → Event
  exit : ℕ → Event
  close : Event

pub record World (S : Type 0) : Type 0 where
  pub events : List Event
  pub now : ℕ
  pub state : S

-- The world behind a piece of code, and the value with which it panics, if it does.
abbrev pub Ran : Type 0 → Type 0
Ran S = World S × Option Bytes

abbrev pub Action : Type 0 → Type 0
Action S = World S → Ran S

-- `ssh.Handler` and `wish.Middleware`
abbrev pub Handler : Type 0 → Type 0
Handler S = Session → Action S

abbrev pub Middleware : Type 0 → Type 0
Middleware S = Handler S → Handler S

module _ {S : Type 0} where
  abbrev pub and_then : Action S → Ran S → Ran S
  and_then k (w, none) = k w
  and_then k (w, some v) = (w, some v)

  -- One statement behind another: a panic ends the sequence.
  infixl 5 ◌>>◌
  abbrev pub ◌>>◌ : Action S → Action S → Action S
  ◌>>◌ m k w = and_then k (m w)

  abbrev pub emit : Event → Action S
  emit e w = (record w { events = w.events ++ e ∷ [] }, none)

  abbrev pub nothing : Action S
  nothing w = (w, none)

  -- In what follows `text` is what `fmt` makes of the arguments.
  unfoldable pub error : Bytes → Action S
  error text = emit (stderr text)

  unfoldable pub print : Bytes → Action S
  print text = emit (stdout text)

  unfoldable pub println : Bytes → Action S
  println text = emit (stdout (text ++ codes "\n"))

  unfoldable pub errorln : Bytes → Action S
  errorln text = emit (stderr (text ++ codes "\n"))

  unfoldable pub fatal : Bytes → Action S
  unfolding error
  fatal text = error text >> emit (exit 1) >> emit close

  -- `Fatalf` is `Fatal` with the text that the format makes.
  unfoldable pub fatalf : Bytes → Action S
  unfolding error
  fatalf text = error text >> emit (exit 1) >> emit close

  unfoldable pub fatalln : Bytes → Action S
  unfolding error errorln
  fatalln text = errorln text >> error (codes "\r") >> emit (exit 1) >> emit close
