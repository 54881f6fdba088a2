-- ===== src/RateLimiter/Tests.antt =====
-- The rate limiter at concrete inputs: caches of one entry, and limiters that let two sessions pass.
use wish.Base.{
  Bytes, bytes_eq, bytes_eq_self, bytes_eq_iff, Bool-cases, if◌then◌else◌, inl, inr, ℕ, ◌-◌, ltb,
  codes, [], false, Option, none, some, ◌≡◌, refl,
}
use wish.Session.{Session}
use wish.RateLimiter.{Addr, tcp_addr, Limits, State, allow}
use wish.RateLimiter.Separate.{CacheLaws, Separate, SparesOthers, allow-Separate}
use wish.RateLimiter.PerAddress.{allow_twice}

abbrev two_tokens : ℕ → Limits (Option ℕ) ℕ
two_tokens n = record {
  get = λ k c. (c, c);
  add = λ k p c. some p;
  new_limiter = n;
  allow = λ now l. (l - 1, ltb 0 l);
}

abbrev nobody : State (Option ℕ) ℕ
nobody = record { cache = none; store = λ p. 0; next = 0 }

abbrev caller : Session
caller = record {
  user = [];
  remote_addr = [];
  command = [];
  public_key = none;
  pty = none;
  client_version = [];
}

abbrev home : Session → Addr
home s = tcp_addr (codes "::1") 22

allow_twice_example :
    (allow
      (two_tokens 2)
      (tcp_addr (codes "::1") 1001)
      9
      (allow (two_tokens 2) (tcp_addr (codes "::1") 1000) 5 nobody).0).1
    ≡ ((two_tokens 2).allow 9 ((two_tokens 2).allow 5 (two_tokens 2).new_limiter).0).1
allow_twice_example =
    allow_twice (two_tokens 2) (codes "::1") 1000 1001 5 9 nobody refl (λ p c. refl)

no_token : (allow (two_tokens 0) (home caller) 5 nobody).1 ≡ false
unfolding allow
no_token = refl

-- A cache of one key.
abbrev found_in : Bytes → Option (Bytes × ℕ) → Option ℕ
unfolding bytes_eq
found_in key none = none
found_in key (some (k, p)) = if bytes_eq key k then some p else none

abbrev one_key : Limits (Option (Bytes × ℕ)) ℕ
one_key = record {
  get = λ key c. (c, found_in key c);
  add = λ key p c. some (key, p);
  new_limiter = 2;
  allow = λ now l. (l - 1, ltb 0 l);
}

one_key-CacheLaws : CacheLaws one_key
unfolding found_in
one_key-CacheLaws = record {
  get_keeps = λ key key' c. refl;
  added = λ key p c. rw (bytes_eq_self key) refl;
  others = λ key key' p c n. elim (Bool-cases (bytes_eq key' key)) [
    | inl e ↦ absurd (n ((bytes_eq_iff key' key).0 e))
    | inr e ↦ inl (rw e refl)
  ];
}

abbrev nobody_yet : State (Option (Bytes × ℕ)) ℕ
nobody_yet = record { cache = none; store = λ p. 0; next = 0 }

nobody_yet-Separate : Separate one_key nobody_yet
unfolding found_in
nobody_yet-Separate = record {
  made = λ key p e. absurd (cc e);
  owned = λ key key' p e f. absurd (cc e);
}

allow-Separate_example :
    Separate one_key (allow one_key (tcp_addr (codes "::1") 1) 5 nobody_yet).0
    × SparesOthers one_key
        (tcp_addr (codes "::1") 1)
        nobody_yet
        (allow one_key (tcp_addr (codes "::1") 1) 5 nobody_yet).0
allow-Separate_example =
    allow-Separate one_key one_key-CacheLaws (tcp_addr (codes "::1") 1) 5 nobody_yet
      nobody_yet-Separate
