-- ===== src/RateLimiter.antt =====
-- ratelimiter/ratelimiter.go. The LRU cache and the token bucket are those of other packages, as
-- parameters. The cache holds pointers to limiters, so the limiters stand in a store.
pub mod PerAddress
pub mod Separate
pub mod Tests
use wish.Base.{
  ℕ, zero, suc, ◌+◌, ◌==◌, Bytes, codes, Bool, true, false, Option, none, some, if◌then◌else◌,
}
use wish.Session.{Session, World, Ran, Action, Handler, Middleware, fatal}

-- `net.Addr`
pub data Addr : Type 0 where
  tcp_addr : (ip : Bytes) (port : ℕ) → Addr
  other_addr : Bytes → Addr

-- The cache `C`, the limiter `L`, and what the code calls of them. A limiter looks at the clock.
pub record Limits (C L : Type 0) : Type 0 where
  pub get : Bytes → C → C × Option ℕ
  pub add : Bytes → ℕ → C → C
  pub new_limiter : L
  pub allow : ℕ → L → L × Bool

pub record State (C L : Type 0) : Type 0 where
  pub cache : C
  pub store : ℕ → L
  pub next : ℕ

abbrev pub key_of : Addr → Bytes
key_of (tcp_addr ip port) = ip
key_of (other_addr text) = text

unfoldable pub update : {L : Type 0} → ℕ → L → (ℕ → L) → ℕ → L
update p l store q = if q == p then l else store q

abbrev pub limit_exceeded : Bytes
limit_exceeded = codes "rate limit exceeded, please try again later"

pub data ℤ : Type 0 where
  pos negsuc : ℕ → ℤ

-- The cache has one entry where none or fewer are asked for.
unfoldable pub max_entries : ℤ → ℕ
max_entries (pos zero) = 1
max_entries (pos (suc n)) = suc n
max_entries (negsuc n) = 1

module _ {C L : Type 0} (limits : Limits C L) where
  -- `limiter.Allow()` at the pointer `p`
  abbrev pub take_token : ℕ → ℕ → State C L → State C L × Bool
  take_token now p s =
      let x = limits.allow now (s.store p) in (record s { store = update p x.0 s.store }, x.1)

  abbrev pub fresh : Bytes → ℕ → State C L → State C L × Bool
  fresh key now s =
      let x = limits.allow now limits.new_limiter in
      (
        record s {
          cache = limits.add key s.next s.cache;
          store = update s.next x.0 s.store;
          next = suc s.next;
        },
        x.1,
      )

  abbrev pub looked_up : Bytes → ℕ → State C L → C × Option ℕ → State C L × Bool
  looked_up key now s (c, some p) = take_token now p (record s { cache = c })
  looked_up key now s (c, none) = fresh key now (record s { cache = c })

  -- `Allow`
  unfoldable pub allow : Addr → ℕ → State C L → State C L × Bool
  unfolding update
  allow addr now s = looked_up (key_of addr) now s (limits.get (key_of addr) s.cache)

  abbrev pub limited : Action (State C L) → World (State C L) → State C L × Bool → Ran (State C L)
  limited next w (s, true) = next (record w { state = s })
  limited next w (s, false) = fatal limit_exceeded (record w { state = s })

  -- `Middleware`, with the address of each session
  unfoldable pub rate_limit : (Session → Addr) → Middleware (State C L)
  unfolding allow fatal
  rate_limit addr_of sh s w = limited (sh s) w (allow (addr_of s) w.now w.state)

  -- `NewRateLimiter`, with the rate and the burst in `new_limiter`; `new_cache` is `lru.New`, at a size that is not 0.
  -- No limiter has been made yet.
  unfoldable pub new_rate_limiter : (ℕ → C) → ℤ → State C L
  unfolding max_entries
  new_rate_limiter new_cache n = record {
    cache = new_cache (max_entries n);
    store = λ p. limits.new_limiter;
    next = 0;
  }
