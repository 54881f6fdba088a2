-- ===== src/Strconv.antt =====
-- Package strconv, as scp/scp.go and scp/copy_from_client.go call it: `FormatUint`, `ParseUint` and
-- `ParseInt` at the bases 8 and 10. `ParseInt` is called on digits alone, so it has no sign here.
pub mod RoundTrip
use wish.Base.{
  ℕ, zero, suc, ◌+◌, ◌-◌, ◌*◌, ◌/◌, ◌%◌, ◌^◌, Bytes, [], ◌∷◌, Option, none, some, Bool, ◌&&◌, ◌||◌,
  leb, ltb, if◌then◌else◌,
}

-- The digits of `n` in front of `out`, the last one first; `n` is below the fuel.
unfoldable pub emit : ℕ → ℕ → ℕ → Bytes → Bytes
emit base zero n out = out
emit base (suc fuel) n out =
    let more = emit base fuel (n / base) ((b'0' + n % base) ∷ out) in
    if ltb n base then (b'0' + n) ∷ out else more

-- `FormatUint(n, base)`. A digit falls with each round, so `n + 1` rounds are enough.
unfoldable pub format_uint : ℕ → ℕ → Bytes
unfolding emit
format_uint base n = emit base (suc n) n []

-- The digits read so far spell `n`; a value above `most` is out of range.
unfoldable pub scan : ℕ → ℕ → Bytes → ℕ → Option ℕ
scan base most [] n = some n
scan base most (c ∷ s) n =
    if ltb c b'0' || leb (b'0' + base) c
    then none
    else if ltb most (n * base + (c - b'0'))
    then none
    else scan base most s (n * base + (c - b'0'))

-- `ParseUint(s, base, bits)`
unfoldable pub parse_uint : ℕ → ℕ → Bytes → Option ℕ
unfolding scan
parse_uint base bits [] = none
parse_uint base bits (c ∷ s) = scan base (2 ^ bits - 1) (c ∷ s) 0

-- `ParseInt(s, 10, 64)` on a text of digits
unfoldable pub parse_int : Bytes → Option ℕ
unfolding scan
parse_int [] = none
parse_int (c ∷ s) = scan 10 (2 ^ 63 - 1) (c ∷ s) 0

-- `\d`
abbrev pub is_digit : ℕ → Bool
is_digit c = leb b'0' c && leb c b'9'
