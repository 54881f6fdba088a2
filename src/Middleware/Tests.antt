-- ===== src/Middleware/Tests.antt =====
-- The middlewares at concrete inputs.
use wish.Base.{ℕ, codes, List, [], ◌∷◌, ◌++◌, none, some, ◌≡◌, refl, inl, inr}
use wish.Session.{Session, World, stdout, exit, Handler, Middleware}
use wish.Middleware.{with_middleware, access_control, active_term, comment, recover, guard, Logger}
use wish.Middleware.Gates.{Listed, with_middleware-closed}
use wish.Middleware.Recovery.{recover-never_panics}

abbrev pub visiting : Session
visiting = record {
  user = codes "u";
  remote_addr = codes "10.0.0.1:22";
  command = codes "rm" ∷ codes "-r" ∷ [];
  public_key = none;
  pty = none;
  client_version = [];
}

abbrev pub still : World ℕ
still = record { events = []; now = 7; state = 0 }

abbrev chain : List (Middleware ℕ)
chain = comment (codes "bye") ∷ []

abbrev panicking : Handler ℕ
panicking s w = (w, some (codes "boom"))

abbrev crashing : List (Middleware ℕ)
crashing = (λ next. panicking) ∷ []

abbrev pub plain : Logger
plain = record { connected = λ c. c.user; disconnected = λ d. d.remote_addr }

rm-not-Listed : ¬ Listed (codes "rm") (codes "git" ∷ [])
rm-not-Listed (inl e) = cc
rm-not-Listed (inr m) = m

with_middleware-closed_example :
    (with_middleware (chain ++ access_control (codes "git" ∷ []) ∷ []) visiting still ≡ (
      record still {
        events =
            []
            ++ stdout (codes "Command is not allowed: " ++ codes "rm" ++ codes "\n") ∷ exit 1 ∷ [];
      },
      none,
    ))
    × (with_middleware (chain ++ active_term ∷ []) visiting still ≡ (
      record still { events = [] ++ stdout (codes "Requires an active PTY\n") ∷ exit 1 ∷ [] },
      none,
    ))
with_middleware-closed_example =
    with_middleware-closed chain (codes "git" ∷ []) (codes "-r" ∷ []) (codes "rm") visiting visiting
      still refl rm-not-Listed refl

recover-never_panics_example :
    (recover (λ v. v) crashing panicking visiting still
      ≡ guard
          (λ v. v)
          (panicking visiting)
          (guard (λ v. v) (with_middleware crashing visiting) still).0)
    × ((recover (λ v. v) crashing panicking visiting still).1 ≡ none)
recover-never_panics_example = recover-never_panics (λ v. v) crashing panicking visiting still
