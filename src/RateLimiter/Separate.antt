-- ===== src/RateLimiter/Separate.antt =====
-- Whose limiters `Allow` touches.
use wish.Base.{
  subst, ℕ, ◌<◌, Bytes, bytes_eq, bytes_eq_iff, Option, none, some, ◌≡◌, ◌≢◌, arith, ap, sym, ◌∙◌,
  ◌⊎◌, inl, inr, Bool-cases, Option-cases,
}
use wish.RateLimiter.PerAddress.{looked_up-none, looked_up-some}
use wish.RateLimiter.{
  Addr, tcp_addr, other_addr, Limits, State, key_of, update, take_token, fresh, allow,
}

-- Not the same IP, or not the same text where an address is none of TCP.
abbrev pub Apart : Addr → Addr → Type 0
Apart (tcp_addr ip port) (tcp_addr ip' port') = ip ≢ ip'
Apart (tcp_addr ip port) (other_addr text) = ip ≢ text
Apart (other_addr text) (tcp_addr ip port) = text ≢ ip
Apart (other_addr text) (other_addr text') = text ≢ text'

key-Apart : (a b : Addr) → Apart a b → key_of a ≢ key_of b
key-Apart (tcp_addr ip port) (tcp_addr ip' port') h = h
key-Apart (tcp_addr ip port) (other_addr text) h = h
key-Apart (other_addr text) (tcp_addr ip port) h = h
key-Apart (other_addr text) (other_addr text') h = h

module _ {C L : Type 0} (limits : Limits C L) where
  -- The pointer that the cache gives for a key.
  abbrev pub look : Bytes → C → Option ℕ
  look key c = (limits.get key c).1

  -- What the cache promises: a lookup changes no entry, and adding one adds that and changes no other, but
  -- may drop others.
  pub record CacheLaws : Type 0 where
    pub get_keeps : (key key' : Bytes) (c : C) → look key' (limits.get key c).0 ≡ look key' c
    pub added : (key : Bytes) (p : ℕ) (c : C) → look key (limits.add key p c) ≡ some p
    pub others :
        (key key' : Bytes) (p : ℕ) (c : C)
        → key' ≢ key
        → (look key' (limits.add key p c) ≡ none) ⊎ (look key' (limits.add key p c) ≡ look key' c)

  -- Every pointer in the cache has been made, and each belongs to one key.
  pub record Separate (s : State C L) : Type 0 where
    pub made : (key : Bytes) (p : ℕ) → look key s.cache ≡ some p → p < s.next
    pub owned :
        (key key' : Bytes) (p : ℕ)
        → look key s.cache ≡ some p
        → look key' s.cache ≡ some p
        → key ≡ key'

  -- The limiters of the other keys are as they were.
  abbrev pub Spared : Bytes → State C L → State C L → Type 0
  Spared key s t =
      (key' : Bytes) (p : ℕ) → key' ≢ key → look key' s.cache ≡ some p → t.store p ≡ s.store p

  -- The limiters of all other addresses are as they were.
  abbrev pub SparesOthers : Addr → State C L → State C L → Type 0
  SparesOthers addr s t =
      (other : Addr) (p : ℕ)
      → Apart other addr
      → look (key_of other) s.cache ≡ some p
      → t.store p ≡ s.store p

  update_other : (p q : ℕ) (l : L) (store : ℕ → L) → q ≢ p → update p l store q ≡ store q
  unfolding update
  update_other p q l store n = ground (arith, n)

  module _ (laws : CacheLaws) where
    abbrev Kept : Bytes → State C L → State C L → Type 0
    Kept key s t = Separate t × Spared key s t

    taken-Kept :
        (key : Bytes) (now p : ℕ) (s : State C L)
        → Separate s
        → look key s.cache ≡ some p
        → Kept key s (take_token limits now p (record s { cache = (limits.get key s.cache).0 })).0
    taken-Kept key now p s i e = (
      record {
        made = λ k q f. i.made k q (sym (laws.get_keeps key k s.cache) ∙ f);
        owned = λ k k' q f g.
            i.owned k k' q (sym (laws.get_keeps key k s.cache) ∙ f)
              (sym (laws.get_keeps key k' s.cache) ∙ g);
      },
      λ k q n f.
          update_other p q (limits.allow now (s.store p)).0 s.store
            (λ z. n (i.owned k key q f (e ∙ ap some (sym z)))),
    )

    -- What the cache gives behind the making of a limiter.
    entry :
        (key k : Bytes) (p q : ℕ) (c : C)
        → look k (limits.add key p (limits.get key c).0) ≡ some q
        → ((k ≡ key) × (q ≡ p)) ⊎ (look k c ≡ some q)
    entry key k p q c f = elim (Bool-cases (bytes_eq k key)) [
      | inl e ↦
          let same : k ≡ key = (bytes_eq_iff k key).0 e in
          let g : some p ≡ some q =
            sym (laws.added key p (limits.get key c).0)
            ∙ ap (λ x. look x (limits.add key p (limits.get key c).0)) (sym same)
            ∙ f in
          inl (same, cc g)
      | inr e ↦
          elim (laws.others key k p (limits.get key c).0 (λ z. cc (e, (bytes_eq_iff k key).1 z))) [
            | inl g ↦ absurd (cc (g, f))
            | inr g ↦ inr (sym (laws.get_keeps key k c) ∙ sym g ∙ f)
          ]
    ]

    fresh-Kept :
        (key : Bytes) (now : ℕ) (s : State C L)
        → Separate s
        → Kept key s (fresh limits key now (record s { cache = (limits.get key s.cache).0 })).0
    fresh-Kept key now s i = (
      record {
        made = λ k q f. elim (entry key k s.next q s.cache f) [
          | inl (e, g) ↦ omega (arith, g)
          | inr g ↦ omega (arith, i.made k q g)
        ];
        owned = λ k k' q f f'. elim (entry key k s.next q s.cache f) [
          | inl (e, g) ↦ elim (entry key k' s.next q s.cache f') [
            | inl (e', g') ↦ e ∙ sym e'
            | inr g' ↦ absurd (omega (arith, g, i.made k' q g'))
          ]
          | inr g ↦ elim (entry key k' s.next q s.cache f') [
            | inl (e', g') ↦ absurd (omega (arith, g', i.made k q g))
            | inr g' ↦ i.owned k k' q g g'
          ]
        ];
      },
      λ k q n f.
          update_other s.next q (limits.allow now limits.new_limiter).0 s.store
            (λ z. omega (arith, z, i.made k q f)),
    )

    allow-Kept :
        (addr : Addr) (now : ℕ) (s : State C L)
        → Separate s
        → Kept (key_of addr) s (allow limits addr now s).0
    unfolding allow
    allow-Kept addr now s i =
        let key = key_of addr in
        let x = limits.get key s.cache in
        elim (Option-cases x.1) [
          | inl e ↦
              subst (λ y. Kept key s y.0) (sym (looked_up-none limits key now s x e))
                (fresh-Kept key now s i)
          | inr (p, e) ↦
              subst (λ y. Kept key s y.0) (sym (looked_up-some limits key now p s x e))
                (taken-Kept key now p s i e)
        ]

    -- `Allow` leaves alone the limiters of all addresses but its own, where two TCP addresses are the same if their
    -- IPs are, whatever the ports, and others if their texts are: the limiter that the cache has for another address
    -- stays as it was. And every pointer of the cache still belongs to one key, if each pointer has been made and
    -- belongs to one key before, and a lookup in the cache changes no entry, and adding an entry adds that one and
    -- changes no other, but may drop others.
    pub allow-Separate :
        (addr : Addr) (now : ℕ) (s : State C L)
        → Separate s
        → Separate (allow limits addr now s).0 × SparesOthers addr s (allow limits addr now s).0
    allow-Separate addr now s i =
        let (k, l) = allow-Kept addr now s i in
        (k, λ other p a e. l (key_of other) p (key-Apart other addr a) e)
