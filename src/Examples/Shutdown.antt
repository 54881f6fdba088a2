-- ===== src/Examples/Shutdown.antt =====
-- examples/graceful-shutdown/main.go: how the example starts its server, waits for a signal and stops it. `main` and
-- the goroutine that serves run beside each other and meet at the channel `done`, which holds one value.
pub mod Woken
pub mod Tests
use wish.Base.{Bytes, codes, List, [], ◌∷◌, ◌++◌, Bool, true, false, Option, none, some}

-- What `ListenAndServe` and `Shutdown` return: nil, `ssh.ErrServerClosed`, or another error.
pub data Returned : Type 0 where
  no_error server_closed : Returned
  other_error : Bytes → Returned

-- Where `main` is: at `<-done`, behind it, in `Shutdown`, or at its end.
pub data MainAt : Type 0 where
  waiting woken shutting_down ended : MainAt

-- Where the goroutine is: before its first line, in `ListenAndServe`, at `done <- nil`, or at its end.
pub data ServeAt : Type 0 where
  starting serving reporting served : ServeAt

pub record State : Type 0 where
  pub main : MainAt
  pub serve : ServeAt
  pub done : Bool
  pub lines : List Bytes

abbrev pub at : MainAt → ServeAt → Bool → List Bytes → State
at m s d ls = record { main = m; serve = s; done = d; lines = ls }

unfoldable pub start : State
start = at waiting starting false []

-- What comes from outside: a signal, and what the two calls return.
pub data Input : Type 0 where
  signal : Input
  serve_returns shutdown_returns : Returned → Input

-- `err != nil && !errors.Is(err, ssh.ErrServerClosed)`, and the text of the error
abbrev pub reported : Returned → Option Bytes
reported no_error = none
reported server_closed = none
reported (other_error e) = some e

-- What the goroutine does when `ListenAndServe` has returned.
abbrev pub after_serve : Option Bytes → (MainAt → Bool → List Bytes → State)
after_serve none m d ls = at m served d ls
after_serve (some e) m d ls = at m reporting d (ls ++ (codes "Could not start server " ++ e) ∷ [])

-- What `main` does when `Shutdown` has returned.
abbrev pub after_shutdown : Option Bytes → List Bytes → List Bytes
after_shutdown none ls = ls
after_shutdown (some e) ls = ls ++ (codes "Could not stop server " ++ e) ∷ []

-- `signal.Notify` puts a signal into the channel if there is room, and drops it otherwise; the goroutine waits
-- for room.
pub data Step : State → List Input → State → Type 0 where
  arrive :
      (m : MainAt) (s : ServeAt) (d : Bool) (ls : List Bytes)
      → Step (at m s d ls) (signal ∷ []) (at m s true ls)
  listen :
      (m : MainAt) (d : Bool) (ls : List Bytes)
      → Step (at m starting d ls) [] (at m serving d (ls ++ codes "Starting SSH server" ∷ []))
  serve_ends :
      (m : MainAt) (d : Bool) (ls : List Bytes) (r : Returned)
      → Step (at m serving d ls) (serve_returns r ∷ []) (after_serve (reported r) m d ls)
  report : (m : MainAt) (ls : List Bytes) → Step (at m reporting false ls) [] (at m served true ls)
  wake : (s : ServeAt) (ls : List Bytes) → Step (at waiting s true ls) [] (at woken s false ls)
  stop :
      (s : ServeAt) (d : Bool) (ls : List Bytes)
      → Step (at woken s d ls) [] (at shutting_down s d (ls ++ codes "Stopping SSH server" ∷ []))
  shutdown_ends :
      (s : ServeAt) (d : Bool) (ls : List Bytes) (r : Returned)
      → Step
          (at shutting_down s d ls)
          (shutdown_returns r ∷ [])
          (at ended s d (after_shutdown (reported r) ls))

-- Any number of steps, with what came from outside, in order.
pub data Steps : State → List Input → State → Type 0 where
  finished : (σ : State) → Steps σ [] σ
  step : {σ τ υ : State} {is js : List Input} → Step σ is τ → Steps τ js υ → Steps σ (is ++ js) υ
