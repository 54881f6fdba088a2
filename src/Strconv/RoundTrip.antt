-- ===== src/Strconv/RoundTrip.antt =====
-- What is printed is read back; how long a print is, and of what it is made.
use native.Mathlib.Decide.{dec_lt}
use wish.Base.{
  ℕ, zero, suc, ◌+◌, ◌-◌, ◌*◌, ◌/◌, ◌%◌, ◌^◌, ◌≤◌, ◌<◌, Bytes, [], ◌∷◌, some, true, ◌≡◌, ◌≢◌, refl,
  arith, All, length, ◌∙◌,
}
use wish.Strconv.{emit, format_uint, scan, parse_uint, parse_int, is_digit}

div-lt : (n base : ℕ) → 2 ≤ base → base ≤ n → n / base < n
div-lt n base p h = grind arith

div-mod : (n base : ℕ) → 2 ≤ base → (n / base * base + n % base ≡ n) × (n % base < base)
div-mod n base p = (grind arith, grind arith)

scan_digit :
    (base most m d : ℕ) (out : Bytes)
    → d < base
    → m * base + d ≤ most
    → scan base most ((b'0' + d) ∷ out) m ≡ scan base most out (m * base + d)
unfolding scan
scan_digit base most m d out h k = let e : b'0' + d - b'0' ≡ d = omega arith in rw e (ground arith)

module _ (base most : ℕ) (two : 2 ≤ base) (ten : base ≤ 10) where
  scan-emit :
      (fuel n : ℕ) (out : Bytes)
      → n < fuel
      → n ≤ most
      → scan base most (emit base fuel n out) 0 ≡ scan base most out n
  unfolding emit scan
  scan-emit zero n out h k = elim h [ ]
  scan-emit (suc fuel) n out h k = ground (
    arith,
    scan_digit base most 0 n out,
    div-lt n base two,
    div-mod n base two,
    scan-emit fuel (n / base) ((b'0' + n % base) ∷ out),
    scan_digit base most (n / base) (n % base) out,
  )

digits-emit :
    (base fuel n : ℕ) (out : Bytes)
    → 2 ≤ base
    → base ≤ 10
    → n < fuel
    → All (λ c. is_digit c ≡ true) out
    → All (λ c. is_digit c ≡ true) (emit base fuel n out)
unfolding emit
digits-emit base zero n out p q h k = k
digits-emit base (suc fuel) n out p q h k = ground (
  arith,
  div-lt n base p,
  div-mod n base p,
  digits-emit base fuel (n / base) ((b'0' + n % base) ∷ out) p q,
)

-- `n` has `k + 1` digits.
abbrev HasDigits : ℕ → ℕ → ℕ → Type 0
HasDigits base zero n = n < base
HasDigits base (suc k) n = (base ≤ n) × HasDigits base k (n / base)

length-emit :
    (base k fuel n : ℕ) (out : Bytes)
    → 2 ≤ base
    → n < fuel
    → HasDigits base k n
    → length (emit base fuel n out) ≡ suc k + length out
unfolding emit
length-emit base k zero n out p h d = elim h [ ]
length-emit base zero (suc fuel) n out p h d = ground arith
length-emit base (suc k) (suc fuel) n out p h (lo, d) =
    let rest : length (emit base fuel (n / base) ((b'0' + n % base) ∷ out))
        ≡ suc k + suc (length out) =
      length-emit base k fuel (n / base) ((b'0' + n % base) ∷ out) p
        (omega (arith, div-lt n base p lo)) d in
    ground (arith, rest)

-- Three octal digits, and ten decimal ones.
pub length-octal : (n : ℕ) → 64 ≤ n → n < 512 → length (format_uint 8 n) ≡ 3
unfolding format_uint
length-octal n lo hi = length-emit 8 2 (suc n) n [] (omega arith) (omega arith) (omega arith)

pub length-decimal : (n : ℕ) → 10 ^ 9 ≤ n → n < 10 ^ 10 → length (format_uint 10 n) ≡ 10
unfolding format_uint
length-decimal n lo hi = length-emit 10 9 (suc n) n [] (omega arith) (omega arith) (omega arith)

-- Below 0o100 there are two octal digits at most.
pub length-octal_short : (n : ℕ) → n < 64 → length (format_uint 8 n) ≤ 2
unfolding format_uint
length-octal_short n hi = elim (dec_lt n 8) [
  | yes h ↦ omega (arith, length-emit 8 0 (suc n) n [] (omega arith) (omega arith) h)
  | no h ↦ omega (arith, length-emit 8 1 (suc n) n [] (omega arith) (omega arith) (omega arith))
]

pub digits-format_uint :
    (base n : ℕ) → 2 ≤ base → base ≤ 10 → All (λ c. is_digit c ≡ true) (format_uint base n)
unfolding format_uint
digits-format_uint base n p q = digits-emit base (suc n) n [] p q (omega arith) tt

emit-ne-nil_cons : (base fuel n d : ℕ) (out : Bytes) → emit base fuel n (d ∷ out) ≢ []
unfolding emit
emit-ne-nil_cons base zero n d out = ground arith
emit-ne-nil_cons base (suc fuel) n d out =
    ground (arith, emit-ne-nil_cons base fuel (n / base) (b'0' + n % base) (d ∷ out))

emit-ne-nil : (base fuel n : ℕ) (out : Bytes) → n < fuel → emit base fuel n out ≢ []
unfolding emit
emit-ne-nil base zero n out h = elim h [ ]
emit-ne-nil base (suc fuel) n out h =
    ground (arith, emit-ne-nil_cons base fuel (n / base) (b'0' + n % base) out)

pub format_uint-ne-nil : (base n : ℕ) → format_uint base n ≢ []
unfolding format_uint
format_uint-ne-nil base n = emit-ne-nil base (suc n) n [] (omega arith)

parse_uint-scan :
    (base bits : ℕ) (s : Bytes) → s ≢ [] → parse_uint base bits s ≡ scan base (2 ^ bits - 1) s 0
unfolding parse_uint
parse_uint-scan base bits [] h = absurd (h refl)
parse_uint-scan base bits (c ∷ s) h = refl

parse_int-scan : (s : Bytes) → s ≢ [] → parse_int s ≡ scan 10 (2 ^ 63 - 1) s 0
unfolding parse_int
parse_int-scan [] h = absurd (h refl)
parse_int-scan (c ∷ s) h = refl

-- An octal mode with a zero in front is read back.
pub parse_uint-octal : (n : ℕ) → n < 512 → parse_uint 8 32 (b'0' ∷ format_uint 8 n) ≡ some n
unfolding parse_uint format_uint
parse_uint-octal n h =
    scan_digit 8 (2 ^ 32 - 1) 0 0 (emit 8 (suc n) n []) (omega arith) (omega arith)
    ∙ scan-emit 8 (2 ^ 32 - 1) (omega arith) (omega arith) (suc n) n [] (omega arith) (omega arith)

-- Every int64 that is not negative is read back from its decimal print.
pub parse_int-format_uint : (n : ℕ) → n < 2 ^ 63 → parse_int (format_uint 10 n) ≡ some n
parse_int-format_uint n h =
    parse_int-scan (format_uint 10 n) (format_uint-ne-nil 10 n)
    ∙ (unfold format_uint scan in
        scan-emit 10 (2 ^ 63 - 1) (omega arith) (omega arith) (suc n) n [] (omega arith)
          (omega arith))
