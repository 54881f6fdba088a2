-- ===== src/RateLimiter/PerAddress.antt =====
-- Each address has one limiter, whatever its port.
use wish.Base.{
  ℕ, ==_iff, Bytes, [], ◌∷◌, ◌++◌, Bool, true, false, Option, none, some, ◌≡◌, refl, append_assoc,
  ap, ◌∙◌,
}
use wish.Session.{Session, World, Action, stderr, exit, close, Handler, fatal, error}
use wish.RateLimiter.{
  Addr, tcp_addr, Limits, State, update, take_token, fresh, looked_up, allow, limit_exceeded,
  limited, rate_limit,
}

update_same : {L : Type 0} (p : ℕ) (l : L) (store : ℕ → L) → update p l store p ≡ l
unfolding update
update_same p l store = rw ((==_iff p p).1 refl) refl

module _ {C L : Type 0} (limits : Limits C L) where
  pub looked_up-none :
      (key : Bytes) (now : ℕ) (s : State C L) (x : C × Option ℕ)
      → x.1 ≡ none
      → looked_up limits key now s x ≡ fresh limits key now (record s { cache = x.0 })
  looked_up-none key now s (c, none) e = refl
  looked_up-none key now s (c, some p) e = absurd (cc e)

  pub looked_up-some :
      (key : Bytes) (now p : ℕ) (s : State C L) (x : C × Option ℕ)
      → x.1 ≡ some p
      → looked_up limits key now s x ≡ take_token limits now p (record s { cache = x.0 })
  looked_up-some key now p s (c, none) e = absurd (cc e)
  looked_up-some key now p s (c, some q) e = ap (λ o. looked_up limits key now s (c, o)) e

  refused_limited :
      (next : Action (State C L)) (w : World (State C L)) (x : State C L × Bool)
      → x.1 ≡ false
      → limited limits next w x ≡ (
        record w { events = w.events ++ stderr limit_exceeded ∷ exit 1 ∷ close ∷ []; state = x.0 },
        none,
      )
  unfolding fatal error
  refused_limited next w (s, true) e = absurd (cc e)
  refused_limited next w (s, false) e = simp (append_assoc)

  -- Two sessions from one IP address that the cache does not hold, from any two ports: the second one is
  -- asked of the limiter that the first has used, not of a new one, if the cache finds what was just
  -- added to it.
  pub allow_twice :
      (ip : Bytes) (port port' now now' : ℕ) (s : State C L)
      → (limits.get ip s.cache).1 ≡ none
      → ((p : ℕ) (c : C) → (limits.get ip (limits.add ip p c)).1 ≡ some p)
      → (allow limits (tcp_addr ip port') now' (allow limits (tcp_addr ip port) now s).0).1
        ≡ (limits.allow now' (limits.allow now limits.new_limiter).0).1
  unfolding allow
  allow_twice ip port port' now now' s e f =
      let x = limits.get ip s.cache in
      let s1 = (fresh limits ip now (record s { cache = x.0 })).0 in
      ap (λ y. (looked_up limits ip now' y.0 (limits.get ip y.0.cache)).1)
        (looked_up-none ip now s x e)
      ∙ ap (λ y. y.1) (looked_up-some ip now' s.next s1 (limits.get ip s1.cache) (f s.next x.0))
      ∙ ap (λ l. (limits.allow now' l).1)
          (update_same s.next (limits.allow now limits.new_limiter).0 s.store)

  -- A session that the limiter refuses is told so on its error stream and ended with status 1, and the
  -- handler behind the middleware does not run.
  pub rate_limit_refused :
      (addr_of : Session → Addr) (sh : Handler (State C L)) (s : Session) (w : World (State C L))
      → (allow limits (addr_of s) w.now w.state).1 ≡ false
      → rate_limit limits addr_of sh s w ≡ (
        record w {
          events = w.events ++ stderr limit_exceeded ∷ exit 1 ∷ close ∷ [];
          state = (allow limits (addr_of s) w.now w.state).0;
        },
        none,
      )
  unfolding rate_limit
  rate_limit_refused addr_of sh s w e =
      refused_limited (sh s) w (allow limits (addr_of s) w.now w.state) e
