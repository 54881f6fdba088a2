-- ===== src/Bubbletea/Watch.antt =====
-- bubbletea/tea.go: the session and the goroutine beside it that passes the changes of the window on to
-- the program, interleaved in any order. The client may change the window or leave at any time, the channel
-- of the changes may be closed, and the program may end on its own, or panic when it is sent a message.
pub mod Order
pub mod Ends
use wish.Base.{ℕ, ◌+◌, ◌≡◌, List, [], ◌∷◌, ◌++◌, Bool, true, false}

pub record Size : Type 0 where
  pub width : ℕ
  pub height : ℕ

-- What a receive from a closed channel gives.
abbrev pub zero_size : Size
zero_size = record { width = 0; height = 0 }

-- The goroutine: in its loop; behind the panic of a message, in the deferred function; and at its end.
pub data WatchPc : Type 0 where
  watching recovering ended : WatchPc

-- The session: in `program.Run`; behind it; behind `program.Kill`; behind `cancel`, where the next handler
-- starts.
pub data SessionPc : Type 0 where
  running returned killed passed_on : SessionPc

pub record System : Type 0 where
  pub session : SessionPc
  pub watch : WatchPc
  pub changes : List Size  -- what the channel of the window still holds, the oldest first
  pub closed : Bool  -- whether that channel has been closed
  pub sent : List Size  -- what the program has been sent, the oldest first
  pub resized : List Size  -- all that the client has sent
  pub done : Bool  -- whether the context is done
  pub quit : Bool  -- whether `program.Quit` has been called
  pub panics : ℕ  -- the lines of the log about a panic

-- A step of the goroutine: of what is ready, it picks any. A channel that is closed and empty is ready: the
-- goroutine does not look at the second result of the receive, and sends the zero size.
pub data Move (s : System) : System → Type 0 where
  send :
      (x : Size) (xs : List Size)
      → s.watch ≡ watching
      → s.changes ≡ x ∷ xs
      → Move s (record s { changes = xs; sent = s.sent ++ x ∷ [] })
  send_panics :
      (x : Size) (xs : List Size)
      → s.watch ≡ watching
      → s.changes ≡ x ∷ xs
      → Move s (record s { changes = xs; watch = recovering })
  send_zero :
      s.watch ≡ watching
      → s.changes ≡ []
      → s.closed ≡ true
      → Move s (record s { sent = s.sent ++ zero_size ∷ [] })
  zero_panics :
      s.watch ≡ watching
      → s.changes ≡ []
      → s.closed ≡ true
      → Move s (record s { watch = recovering })
  recover :
      s.watch ≡ recovering → Move s (record s { watch = ended; quit = true; panics = s.panics + 1 })
  end : s.watch ≡ watching → s.done ≡ true → Move s (record s { watch = ended; quit = true })

-- A step of anybody. The context is done when the client leaves, or by `cancel`. The package behind the
-- session may close the channel at any time; it puts nothing into a channel that it has closed.
pub data Step (s : System) : System → Type 0 where
  resize :
      (x : Size)
      → s.closed ≡ false
      → Step s (record s { changes = s.changes ++ x ∷ []; resized = s.resized ++ x ∷ [] })
  close : Step s (record s { closed = true })
  leave : Step s (record s { done = true })
  run_returns : s.session ≡ running → Step s (record s { session = returned })
  kill : s.session ≡ returned → Step s (record s { session = killed })
  cancel : s.session ≡ killed → Step s (record s { session = passed_on; done = true })
  move : {t : System} → Move s t → Step s t

-- Where the goroutine starts: the program is about to run. A client that has left already is a `leave`.
abbrev pub start : System
start = record {
  session = running;
  watch = watching;
  changes = [];
  closed = false;
  sent = [];
  resized = [];
  done = false;
  quit = false;
  panics = 0;
}

pub data Reach : System → Type 0 where
  here : Reach start
  next : {s t : System} → Reach s → Step s t → Reach t
