-- ===== src/Examples/Shutdown/Tests.antt =====
-- A server that cannot listen, and a signal.
use wish.Base.{codes, List, [], ◌∷◌, true, false, ◌≡◌, refl}
use wish.Examples.Shutdown.{
  server_closed, waiting, reporting, State, at, start, Input, signal, serve_returns, other_error,
  Steps, finished, step, arrive, listen, serve_ends, serving,
}
use wish.Examples.Shutdown.Woken.{is_called, any_cause, Ends, Steps-called, Steps-Ends}

abbrev inputs : List Input
inputs = signal ∷ serve_returns (other_error (codes "in use")) ∷ []

abbrev failing : State
failing =
    at waiting reporting true
      (codes "Starting SSH server" ∷ codes "Could not start server in use" ∷ [])

failing-Steps : Steps start inputs failing
unfolding start
failing-Steps = step (listen waiting false []) (
    step (arrive waiting serving false (codes "Starting SSH server" ∷ [])) (
      step
        (serve_ends waiting true (codes "Starting SSH server" ∷ []) (other_error (codes "in use")))
        (finished failing)))

Steps-called_example : is_called failing ≡ any_cause inputs
Steps-called_example = Steps-called failing inputs failing-Steps

Steps-Ends_example : Ends server_closed failing
Steps-Ends_example = Steps-Ends server_closed failing inputs failing-Steps refl
