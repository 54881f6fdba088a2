-- ===== src/Middleware/Recovery.antt =====
-- No panic passes the recover middleware.
use wish.Base.{◌-◌, Bytes, List, [], ◌∷◌, ◌++◌, ◌≡◌, refl, none, some}
use wish.Session.{Session, World, Ran, Action, Handler, Middleware, log, and_then, emit}
use wish.Middleware.Chain.{compose-append}
use wish.Middleware.{
  Logger, connect_of, logging, compose, no_handler, with_middleware, recovered, guard, recover,
}

module _ {S : Type 0} where
  recovered-none : (trace : Bytes → Bytes) (x : Ran S) → (recovered trace x).1 ≡ none
  recovered-none trace (w, none) = refl
  recovered-none trace (w, some v) = refl

  after_guard :
      (trace : Bytes → Bytes) (x : Ran S) (k : Action S)
      → and_then k (recovered trace x) ≡ k (recovered trace x).0
  after_guard trace (w, none) k = refl
  after_guard trace (w, some v) k = refl

  recovered_then-none :
      (trace : Bytes → Bytes) (x : Ran S) (fn : Action S)
      → (and_then (guard trace fn) (recovered trace x)).1 ≡ none
  unfolding guard
  recovered_then-none trace x fn =
      rw (after_guard trace x (guard trace fn)) (recovered-none trace (fn (recovered trace x).0))

  -- A session behind the middleware `recover` never panics. The handler behind it runs in whatever
  -- world the recovered chain leaves, also where the chain panicked, and a panic of either is one
  -- line of the log.
  pub recover-never_panics :
      (trace : Bytes → Bytes) (mw : List (Middleware S)) (sh : Handler S) (s : Session)
      (w : World S)
      → (recover trace mw sh s w ≡ guard trace (sh s) (guard trace (with_middleware mw s) w).0)
        × ((recover trace mw sh s w).1 ≡ none)
  unfolding recover guard with_middleware
  recover-never_panics trace mw sh s w = (
    after_guard trace (with_middleware mw s w) (guard trace (sh s)),
    recovered_then-none trace (with_middleware mw s w) (sh s),
  )

  -- The world once the line of the connection is written.
  abbrev pub announced : Logger → Session → World S → World S
  announced l s w = record w { events = w.events ++ log (l.connected (connect_of s)) ∷ [] }

  -- The middleware `logging` outside of `recover`: both of its lines are written, the second with
  -- the time between them, whether or not the handlers inside panic.
  pub logging-recover :
      (l : Logger) (trace : Bytes → Bytes) (mw : List (Middleware S)) (s : Session) (w : World S)
      → let w1 = (guard trace (with_middleware mw s) (announced l s w)).0 in
        with_middleware (mw ++ recover trace [] ∷ logging l ∷ []) s w ≡ (
          record w1 {
            events =
                w1.events
                ++ log (
                    l.disconnected
                      (record { remote_addr = s.remote_addr; duration = w1.now - w.now }))
                  ∷ [];
          },
          none,
        )
  unfolding logging recover guard with_middleware compose
  logging-recover l trace mw s w =
      rw (compose-append mw (recover trace [] ∷ logging l ∷ []) no_handler) (
        after_guard trace (with_middleware mw s (announced l s w)) (λ w'.
          emit
            (log
              (l.disconnected (record { remote_addr = s.remote_addr; duration = w'.now - w.now })))
            w'))
