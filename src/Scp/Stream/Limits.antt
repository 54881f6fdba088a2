-- ===== src/Scp/Stream/Limits.antt =====
-- What a `limitReader` takes from the stream: a prefix, of the limit's length at most.
use wish.Base.{
  ℕ, zero, suc, ◌+◌, ◌-◌, ◌≤◌, ◌<◌, Bytes, List, [], ◌∷◌, Bool, ◌==◌, length, take, drop, ◌≡◌, refl,
  arith, ◌∙◌, length-take, ap, sym, Bool-cases, inl, inr, subst,
}
use wish.Scp.Stream.{
  Stream, Got, cut_of, read, LimitReader, smaller, limit_read, Line, line, no_line, read_line,
  read_line_from, newline, grow_line,
}

pub cut_of_bounds : (cs : List ℕ) (n : ℕ) → (cut_of cs n ≤ n) × (1 ≤ n → 1 ≤ cut_of cs n)
cut_of_bounds [] n = (omega arith, λ h. h)
cut_of_bounds (c ∷ cs) n = (ground arith, λ h. ground arith)

drop-length-take {ℓ} : {A : Type ℓ} (k : ℕ) (xs : List A) → drop k xs ≡ drop (length (take k xs)) xs
drop-length-take zero xs = refl
drop-length-take (suc k) [] = refl
drop-length-take (suc k) (x ∷ xs) = drop-length-take k xs

drop-nil {ℓ} : {A : Type ℓ} (k : ℕ) → drop {A = A} k [] ≡ []
drop-nil zero = refl
drop-nil (suc k) = refl

pub drop-drop {ℓ} : {A : Type ℓ} (i j : ℕ) (xs : List A) → drop j (drop i xs) ≡ drop (i + j) xs
drop-drop zero j xs = ap (λ k. drop k xs) (omega arith)
drop-drop (suc i) j [] = drop-nil j ∙ sym (drop-nil (suc i + j))
drop-drop (suc i) j (x ∷ xs) =
    drop-drop i j xs ∙ ap (λ k. drop k (x ∷ xs)) {x = suc (i + j)} (omega arith)

-- A read delivers a prefix of at most `n` bytes and leaves the rest.
record Took (s : Stream) (n : ℕ) (g : Got Stream) : Type 0 where
  at_most : length g.bytes ≤ n
  behind : g.reader.rest ≡ drop (length g.bytes) s.rest
  ending : g.reader.broken ≡ s.broken

read-Took_parts :
    (n : ℕ) (b : Bytes) (cuts : List ℕ) (broken : Bool)
    → let s : Stream = record { rest = b; cuts = cuts; broken = broken } in Took s n (read n s)
unfolding read
read-Took_parts n [] cuts broken = record { at_most = omega arith; behind = refl; ending = refl }
read-Took_parts n (c ∷ b) cuts broken = record {
  at_most = omega (arith, length-take (cut_of cuts n) (c ∷ b), (cut_of_bounds cuts n).0);
  behind = drop-length-take (cut_of cuts n) (c ∷ b);
  ending = refl;
}

read-Took : (n : ℕ) (s : Stream) → Took s n (read n s)
read-Took n s = read-Took_parts n s.rest s.cuts s.broken

-- `l'` is `l` after a number of bytes have been read.
pub record Consumed (l l' : LimitReader) (n : ℕ) : Type 0 where
  pub within : n ≤ l.left
  pub counted : l'.left ≡ l.left - n
  pub behind : l'.r.rest ≡ drop n l.r.rest
  pub ending : l'.r.broken ≡ l.r.broken

-- One read of a limit reader takes a prefix of the limit's length at most, and counts it.
pub limit_read-Consumed :
    (n : ℕ) (l : LimitReader) → Consumed l (limit_read n l).reader (length (limit_read n l).bytes)
unfolding limit_read
limit_read-Consumed n l = ground (arith, read-Took (smaller n l.left) l.r)

pub Consumed-trans :
    (a b c : LimitReader) (m n : ℕ) → Consumed a b m → Consumed b c n → Consumed a c (m + n)
Consumed-trans a b c m n p q = record {
  within = omega (arith, p.within, p.counted, q.within);
  counted = omega (arith, p.within, p.counted, q.counted, q.within);
  behind = q.behind ∙ ap (drop n) p.behind ∙ drop-drop m n a.r.rest;
  ending = q.ending ∙ p.ending;
}

-- A line that is read leaves fewer bytes than there were, by the newline at least.
abbrev Shorter : ℕ → Line → Type 0
Shorter n (line t s) = length s.rest < n
Shorter n (no_line e s) = Unit

grow_line-Shorter : (n c : ℕ) (l : Line) → Shorter n l → Shorter (suc n) (grow_line c l)
grow_line-Shorter n c (line t s) h = omega arith
grow_line-Shorter n c (no_line e s) h = tt

read_line_from-Shorter : (b : Bytes) (s : Stream) → Shorter (length b) (read_line_from b s)
unfolding read_line_from
read_line_from-Shorter [] s = tt
read_line_from-Shorter (c ∷ b) s = elim (Bool-cases (c == newline)) [
  | inl e ↦ rw e (omega arith)
  | inr e ↦ rw e (grow_line-Shorter (length b) c (read_line_from b s) (read_line_from-Shorter b s))
]

pub read_line-length :
    (s : Stream) (t : Bytes) (s' : Stream)
    → read_line s ≡ line t s'
    → length s'.rest < length s.rest
unfolding read_line
read_line-length s t s' e = subst (Shorter (length s.rest)) e (read_line_from-Shorter s.rest s)
