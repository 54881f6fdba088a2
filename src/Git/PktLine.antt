-- ===== src/Git/PktLine.antt =====
-- git/git.go, `Fatal`: a message as a packet line of the git protocol.
use native.Mathlib.Nat.{pow-suc}
use wish.Base.{
  ℕ, zero, suc, ◌+◌, ◌-◌, ◌*◌, ◌/◌, ◌%◌, ◌^◌, ◌≤◌, ◌<◌, Bytes, codes, [], ◌∷◌, ◌++◌, leb, ltb,
  if◌then◌else◌, length, replicate, ◌≡◌, refl, arith, sym, ◌∙◌, length-append, length-replicate,
  ◌⊎◌, inl, inr, Bool-cases, All,
}

abbrev hex_digit : ℕ → ℕ
hex_digit d = if ltb d 10 then b'0' + d else b'a' + (d - 10)

-- `%x`: the digits of `n` in front of `out`; `n` is below the fuel.
unfoldable hex_emit : ℕ → ℕ → Bytes → Bytes
hex_emit zero n out = out
hex_emit (suc fuel) n out =
    let more = hex_emit fuel (n / 16) (hex_digit (n % 16) ∷ out) in
    if ltb n 16 then hex_digit n ∷ out else more

-- `%04x`
unfoldable pub hex4 : ℕ → Bytes
unfolding hex_emit
hex4 n = replicate (4 - length (hex_emit (suc n) n [])) b'0' ++ hex_emit (suc n) n []

unfoldable pub pkt_line : Bytes → Bytes
unfolding hex4
pkt_line msg = hex4 (length msg + 5) ++ msg ++ codes "\n"

-- The number that hexadecimal digits spell, behind those that spelt `n`.
unfoldable pub hex_value : Bytes → ℕ → ℕ
hex_value [] n = n
hex_value (c ∷ s) n = hex_value s (n * 16 + (if leb c b'9' then c - b'0' else c - b'a' + 10))

hex_value_digit :
    (d m : ℕ) (out : Bytes) → d < 16 → hex_value (hex_digit d ∷ out) m ≡ hex_value out (m * 16 + d)
unfolding hex_value
hex_value_digit d m out h = ground arith

div-lt : (n : ℕ) → 16 ≤ n → n / 16 < n
div-lt n h = omega arith

div-mod : (n : ℕ) → (n / 16 * 16 + n % 16 ≡ n) × (n % 16 < 16)
div-mod n = (omega arith, omega arith)

hex_value-hex_emit :
    (fuel n : ℕ) (out : Bytes) → n < fuel → hex_value (hex_emit fuel n out) 0 ≡ hex_value out n
unfolding hex_emit
hex_value-hex_emit zero n out h = elim h [ ]
hex_value-hex_emit (suc fuel) n out h = ground (
  arith,
  div-lt n,
  div-mod n,
  hex_value_digit n 0 out,
  hex_value-hex_emit fuel (n / 16) (hex_digit (n % 16) ∷ out),
  hex_value_digit (n % 16) (n / 16) out,
)

hex_value_zeros : (k : ℕ) (s : Bytes) → hex_value (replicate k b'0' ++ s) 0 ≡ hex_value s 0
unfolding hex_value
hex_value_zeros zero s = refl
hex_value_zeros (suc k) s = hex_value_zeros k s

below : (n m : ℕ) → n < m * 16 → n / 16 < m
below n m h = omega arith

length-hex_emit :
    (k fuel n : ℕ) (out : Bytes)
    → n < 16 ^ suc k
    → length (hex_emit fuel n out) ≤ suc k + length out
unfolding hex_emit
length-hex_emit k zero n out h = omega arith
length-hex_emit zero (suc fuel) n out h = ground arith
length-hex_emit (suc k) (suc fuel) n out h =
    let small : n / 16 < 16 ^ suc k = below n (16 ^ suc k) (rw (pow-suc 16 (suc k)) at h) in
    ground (arith, length-hex_emit k fuel (n / 16) (hex_digit (n % 16) ∷ out) small)

hex4-length : (n : ℕ) → n < 65536 → length (hex4 n) ≡ 4
unfolding hex4
hex4-length n h =
    let l = length-hex_emit 3 (suc n) n [] h in
    length-append (replicate (4 - length (hex_emit (suc n) n [])) b'0') (hex_emit (suc n) n [])
    ∙ omega (arith, l, length-replicate {A = ℕ} (4 - length (hex_emit (suc n) n [])) b'0')

hex4-value : (n : ℕ) → hex_value (hex4 n) 0 ≡ n
unfolding hex4 hex_value
hex4-value n =
    hex_value_zeros (4 - length (hex_emit (suc n) n [])) (hex_emit (suc n) n [])
    ∙ hex_value-hex_emit (suc n) n [] (omega arith)

-- A digit of `%x`.
abbrev pub IsHexDigit : ℕ → Type 0
IsHexDigit c = ((b'0' ≤ c) × (c ≤ b'9')) ⊎ ((b'a' ≤ c) × (c ≤ b'f'))

hex_digit-IsHexDigit : (d : ℕ) → d < 16 → IsHexDigit (hex_digit d)
hex_digit-IsHexDigit d h = elim (Bool-cases (ltb d 10)) [
  | inl e ↦ rw e (inl (omega arith, ground (arith, e)))
  | inr e ↦ rw e (inr (omega arith, ground (arith, e, h)))
]

hex_emit-IsHexDigit :
    (fuel n : ℕ) (out : Bytes) → All IsHexDigit out → All IsHexDigit (hex_emit fuel n out)
unfolding hex_emit
hex_emit-IsHexDigit zero n out h = h
hex_emit-IsHexDigit (suc fuel) n out h = elim (Bool-cases (ltb n 16)) [
  | inl e ↦ rw e (hex_digit-IsHexDigit n (ground (arith, e)), h)
  | inr e ↦ rw e (
      hex_emit-IsHexDigit fuel (n / 16) (hex_digit (n % 16) ∷ out)
        (hex_digit-IsHexDigit (n % 16) (div-mod n).1, h))
]

zeros-IsHexDigit : (k : ℕ) (s : Bytes) → All IsHexDigit s → All IsHexDigit (replicate k b'0' ++ s)
zeros-IsHexDigit zero s h = h
zeros-IsHexDigit (suc k) s h = (inl (omega arith, omega arith), zeros-IsHexDigit k s h)

hex4-IsHexDigit : (n : ℕ) → All IsHexDigit (hex4 n)
unfolding hex4
hex4-IsHexDigit n =
    zeros-IsHexDigit (4 - length (hex_emit (suc n) n [])) (hex_emit (suc n) n [])
      (hex_emit-IsHexDigit (suc n) n [] tt)

length_line : (s msg : Bytes) → length s ≡ 4 → length (s ++ msg ++ codes "\n") ≡ length msg + 5
length_line s msg h = length-append (s ++ msg) (codes "\n") ∙ omega (arith, h, length-append s msg)

-- A packet line is four hexadecimal digits, the message and a line feed, and the digits spell the
-- length of the whole line, if that is less than 65536.
pub pkt_line_sized :
    (msg : Bytes)
    → length msg + 5 < 65536
    → (size : Bytes) × (pkt_line msg ≡ size ++ msg ++ codes "\n")
      × (length size ≡ 4)
      × All IsHexDigit size
      × (hex_value size 0 ≡ length (pkt_line msg))
unfolding pkt_line
pkt_line_sized msg h =
    let n = length msg + 5 in
    let four : length (hex4 n) ≡ 4 = hex4-length n h in
    (hex4 n, refl, four, hex4-IsHexDigit n, hex4-value n ∙ sym (length_line (hex4 n) msg four))
