-- ===== src/Examples/Script/Played.antt =====
-- What a session sees of the script.
use wish.Base.{
  ◌-◌, Bytes, codes, List, [], ◌∷◌, ◌++◌, Option, none, some, ◌≡◌, refl, ap, ◌∙◌, append_assoc, inl,
}
use wish.Session.{
  Session, Pty, Event, stdout, stderr, log, exit, close, World, Ran, and_then, ◌>>◌, nothing, emit,
  println, error, errorln, fatalln,
}
use wish.Cmd.{Exec, Runner, command_context}
use wish.Cmd.Wiring.{then_waited, perform-on_pty}
use wish.Middleware.{Logger, active_term, logging, connect_of, no_handler, with_middleware, compose}
use wish.Examples.Script.{script, unless_ran, run_script, script_handler}

-- `bash example.sh`, with the environment and the directory of the server.
abbrev pub bash : Exec
bash = record { name = codes "bash"; args = codes "example.sh" ∷ []; env = []; dir = [] }

module _ {H P S : Type 0} (runner : Runner H P (World S)) (allocated : Pty → P)
    (logger : Logger) where
  abbrev pub begun : Session → World S → World S
  begun s w = record w { events = w.events ++ log (logger.connected (connect_of s)) ∷ [] }

  -- What stands in the log at the end, with the time from the start of the session.
  abbrev pub last_line : Session → (start end : World S) → List Event
  last_line s w w' =
      log (logger.disconnected (record { remote_addr = s.remote_addr; duration = w'.now - w.now }))
      ∷ []

  abbrev pub error_events : Option Bytes → List Event
  error_events none = []
  error_events (some e) = stderr (e ++ codes "\n") ∷ stderr (codes "\r") ∷ exit 1 ∷ close ∷ []

  abbrev pub ended : Session → World S → World S × Option Bytes → Ran S
  ended s w (w', e) = (record w' { events = w'.events ++ error_events e ++ last_line s w w' }, none)

  started :
      (s : Session) (p : Pty) (w : World S)
      → s.pty ≡ some p
      → active_term (run_script {H = H} runner allocated no_handler) s w
        ≡ and_then nothing (
            unless_ran {H = H} runner allocated
              (then_waited runner bash (runner.start (allocated p) bash w)))
  unfolding active_term run_script command_context
  started s p w e = rw e (
      ap (λ x. and_then nothing (unless_ran {H = H} runner allocated x))
        (perform-on_pty runner (script {H = H} runner allocated) (allocated p) w (inl refl)))

  not_started :
      (s : Session) (w : World S)
      → s.pty ≡ none
      → active_term (run_script {H = H} runner allocated no_handler) s w
        ≡ (println (codes "Requires an active PTY") >> emit (exit 1)) w
  unfolding active_term
  not_started s w e = rw e refl

  module _ (s : Session) (w : World S) where
    unless_ran-ended :
        (r : World S × Option Bytes)
        → and_then
            (λ w'.
              emit
                (log (
                  logger.disconnected
                    (record { remote_addr = s.remote_addr; duration = w'.now - w.now })))
                w')
            (and_then nothing (unless_ran {H = H} runner allocated r))
          ≡ ended s w r
    unfolding fatalln errorln error
    unless_ran-ended (w', none) = simp (append_assoc)
    unless_ran-ended (w', some e) = simp (append_assoc)

    -- A session with a terminal: bash is started on the terminal that the server allocates for it, and waited for if it
    -- could be started. An error is written to the session, which ends with status 1 and is closed. A session without
    -- a terminal is told that it wants one and ends with status 1, and nothing is started. Both are between the two lines
    -- of the log.
    pub script_handler-ended :
        (t : Session) (p : Pty)
        → s.pty ≡ some p
        → t.pty ≡ none
        → (script_handler runner allocated logger s w
            ≡ ended s w (then_waited runner bash (runner.start (allocated p) bash (begun s w))))
          × (script_handler runner allocated logger t w ≡ (
            record w {
              events =
                  (begun t w).events
                  ++ stdout (codes "Requires an active PTY\n") ∷ exit 1 ∷ last_line t w w;
            },
            none,
          ))
    unfolding script_handler with_middleware compose active_term logging run_script println
    script_handler-ended t p e f =
        let at_end = λ (v : Session) (w' : World S).
          emit
            (log (
              logger.disconnected
                (record { remote_addr = v.remote_addr; duration = w'.now - w.now })))
            w' in
        (
          ap (and_then (at_end s)) (started s p (begun s w) e)
              ∙ unless_ran-ended
                  (then_waited runner bash (runner.start (allocated p) bash (begun s w))),
          ap (and_then (at_end t)) (not_started t (begun t w) f) ∙ simp (append_assoc),
        )
