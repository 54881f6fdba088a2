-- ===== src/Middleware/Gates.antt =====
-- The middlewares that let a session through or end it.
use wish.Base.{
  Bytes, codes, List, [], ◌∷◌, ◌++◌, true, false, none, some, bytes_eq, bytes_eq_iff, ◌≡◌, ◌⊎◌,
  refl, arith, Bool-cases, inl, inr, ◌∙◌, ap, append_assoc,
}
use wish.Session.{Pty, Session, stdout, exit, World, Middleware}
use wish.Middleware.{with_middleware, is_allowed, access_control, active_term, check_pty}
use wish.Middleware.Chain.{with_middleware-concat}

-- The command of a session is none, or one of those that are listed.
abbrev pub Listed : Bytes → List Bytes → Type 0
Listed name [] = ⊥
Listed name (c ∷ cs) = (name ≡ c) ⊎ Listed name cs

is_allowed_sound : (cs : List Bytes) (name : Bytes) → is_allowed cs name ≡ true → Listed name cs
unfolding is_allowed
is_allowed_sound [] name h = absurd (cc)
is_allowed_sound (c ∷ cs) name h = elim (Bool-cases (bytes_eq name c)) [
  | inl e ↦ inl ((bytes_eq_iff name c).0 e)
  | inr e ↦ inr (is_allowed_sound cs name (rw e at h))
]

is_allowed_complete : (cs : List Bytes) (name : Bytes) → Listed name cs → is_allowed cs name ≡ true
unfolding is_allowed
is_allowed_complete [] name h = absurd h
is_allowed_complete (c ∷ cs) name (inl e) = rw ((bytes_eq_iff name c).1 e)
is_allowed_complete (c ∷ cs) name (inr m) = ground (arith, is_allowed_complete cs name m)

not_allowed : (cs : List Bytes) (name : Bytes) → ¬ Listed name cs → is_allowed cs name ≡ false
not_allowed cs name m = elim (Bool-cases (is_allowed cs name)) [
  | inl e ↦ absurd (m (is_allowed_sound cs name e))
  | inr e ↦ e
]

module _ {S : Type 0} where
  -- The outermost middleware `access_control` in front of any chain: a listed command goes to the
  -- chain as it is.
  pub access_control-Listed :
      (mw : List (Middleware S)) (cmds args : List Bytes) (name : Bytes) (s : Session) (w : World S)
      → s.command ≡ name ∷ args
      → Listed name cmds
      → with_middleware (mw ++ access_control cmds ∷ []) s w ≡ with_middleware mw s w
  access_control-Listed mw cmds args name s w e m =
      unfold access_control in
      rw (with_middleware-concat mw (access_control cmds), e, is_allowed_complete cmds name m) refl

  -- Any other command never reaches the chain, whatever the chain is: the session is told so and
  -- ended with status 1, and the application's state is not touched.
  access_control_refused :
      (mw : List (Middleware S)) (cmds args : List Bytes) (name : Bytes) (s : Session) (w : World S)
      → s.command ≡ name ∷ args
      → ¬ Listed name cmds
      → with_middleware (mw ++ access_control cmds ∷ []) s w ≡ (
        record w {
          events =
              w.events
              ++ stdout (codes "Command is not allowed: " ++ name ++ codes "\n") ∷ exit 1 ∷ [];
        },
        none,
      )
  access_control_refused mw cmds args name s w e m =
      unfold access_control in
      rw (with_middleware-concat mw (access_control cmds), e, not_allowed cmds name m)
        (simp (append_assoc))

  -- The outermost middleware `active_term` in front of any chain: a session with a terminal goes to
  -- the chain as it is.
  pub active_term_present :
      (mw : List (Middleware S)) (s : Session) (w : World S) (p : Pty)
      → s.pty ≡ some p
      → with_middleware (mw ++ active_term ∷ []) s w ≡ with_middleware mw s w
  unfolding active_term
  active_term_present mw s w p e =
      (λ i. with_middleware-concat mw active_term i s w)
      ∙ ap (λ o. check_pty o (with_middleware mw s) w) e

  -- A session without one is told so and ended with status 1, and never reaches the chain.
  active_term_absent :
      (mw : List (Middleware S)) (s : Session) (w : World S)
      → s.pty ≡ none
      → with_middleware (mw ++ active_term ∷ []) s w ≡ (
        record w { events = w.events ++ stdout (codes "Requires an active PTY\n") ∷ exit 1 ∷ [] },
        none,
      )
  unfolding active_term
  active_term_absent mw s w e = rw (with_middleware-concat mw active_term, e) (simp (append_assoc))

  -- With access control listed last, a session with a command that is not on the list never reaches the chain, whatever
  -- the chain is: it is told so and ended with status 1, and nothing else happens. With active terminal listed last,
  -- a session without a terminal never reaches the chain and is ended likewise.
  pub with_middleware-closed :
      (mw : List (Middleware S)) (cmds args : List Bytes) (name : Bytes) (s t : Session)
      (w : World S)
      → s.command ≡ name ∷ args
      → ¬ Listed name cmds
      → t.pty ≡ none
      → (with_middleware (mw ++ access_control cmds ∷ []) s w ≡ (
        record w {
          events =
              w.events
              ++ stdout (codes "Command is not allowed: " ++ name ++ codes "\n") ∷ exit 1 ∷ [];
        },
        none,
      ))
        × (with_middleware (mw ++ active_term ∷ []) t w ≡ (
          record w { events = w.events ++ stdout (codes "Requires an active PTY\n") ∷ exit 1 ∷ [] },
          none,
        ))
  with_middleware-closed mw cmds args name s t w e m f =
      (access_control_refused mw cmds args name s w e m, active_term_absent mw t w f)
