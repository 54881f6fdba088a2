-- ===== src/Scp/Header.antt =====
-- scp/copy_from_client.go: the three regular expressions and the order in which the loop tries
-- them. All are anchored at both ends, so a line has one match at most.
pub mod Laws
use wish.Base.{
  ℕ, zero, suc, Bytes, codes, [], ◌∷◌, ◌++◌, Bool, true, false, Option, none, some, ◌==◌, bytes_eq,
  has_byte, if◌then◌else◌,
}
use wish.Strconv.{is_digit}
use wish.Scp.Stream.{newline}

infixl 5 ◌>>=◌
abbrev ◌>>=◌ {ℓ κ} : {A : Type ℓ} {B : Type κ} → Option A → (A → Option B) → Option B
none >>= k = none
some a >>= k = k a

-- The text behind a literal one.
unfoldable pub literal : Bytes → Bytes → Option Bytes
literal [] s = some s
literal (p ∷ ps) [] = none
literal (p ∷ ps) (c ∷ s) = if c == p then literal ps s else none

abbrev grow : ℕ → Option (Bytes × Bytes) → Option (Bytes × Bytes)
grow c none = none
grow c (some (d, s)) = some (c ∷ d, s)

-- `(\d{n})`, and the text behind it
unfoldable pub digits : ℕ → Bytes → Option (Bytes × Bytes)
digits zero s = some ([], s)
digits (suc n) [] = none
digits (suc n) (c ∷ s) = if is_digit c then grow c (digits n s) else none

abbrev grow_run : ℕ → Bytes × Bytes → Bytes × Bytes
grow_run c (d, s) = (c ∷ d, s)

-- The digits in front, and the text behind them.
unfoldable pub run : Bytes → Bytes × Bytes
run [] = ([], [])
run (c ∷ s) = if is_digit c then grow_run c (run s) else ([], c ∷ s)

-- `(\d+) ` takes all digits: a space is none, so the expression never backs out.
abbrev some_run : Bytes × Bytes → Option (Bytes × Bytes)
some_run ([], s) = none
some_run (c ∷ d, s) = some (c ∷ d, s)

-- `(.*)$`
abbrev any_text : Bytes → Option Bytes
any_text s = if has_byte newline s then none else some s

abbrev at_end : Bytes → Option (Unit {0})
at_end [] = some tt
at_end (c ∷ s) = none

-- `^T(\d{10}) 0 (\d{10}) 0$`
unfoldable pub timestamp : Bytes → Option (Bytes × Bytes)
unfolding literal
timestamp text = do
  s ← literal (codes "T") text
  (m, s) ← digits 10 s
  s ← literal (codes " 0 ") s
  (a, s) ← digits 10 s
  s ← literal (codes " 0") s
  _ ← at_end s
  some (m, a)

-- `^D(\d{4}) 0 (.*)$`
unfoldable pub new_folder : Bytes → Option (Bytes × Bytes)
unfolding literal
new_folder text = do
  s ← literal (codes "D") text
  (mode, s) ← digits 4 s
  s ← literal (codes " 0 ") s
  name ← any_text s
  some (mode, name)

-- `^C(\d{4}) (\d+) (.*)$`
unfoldable pub new_file : Bytes → Option (Bytes × Bytes × Bytes)
unfolding literal
new_file text = do
  s ← literal (codes "C") text
  (mode, s) ← digits 4 s
  s ← literal (codes " ") s
  (size, s) ← some_run (run s)
  s ← literal (codes " ") s
  name ← any_text s
  some (mode, size, name)

pub data Header : Type 0 where
  times : (mtime atime : Bytes) → Header
  file_header : (mode size name : Bytes) → Header
  dir_header : (mode name : Bytes) → Header
  end_dir other : Header

-- The order of the tests in the loop: the first expression that matches decides.
abbrev pub first_match :
    Option (Bytes × Bytes) → Option (Bytes × Bytes × Bytes) → Option (Bytes × Bytes) → Bool → Header
first_match (some (m, a)) _ _ _ = times m a
first_match none (some (mode, size, name)) _ _ = file_header mode size name
first_match none none (some (mode, name)) _ = dir_header mode name
first_match none none none true = end_dir
first_match none none none false = other

unfoldable pub classify : Bytes → Header
unfolding timestamp new_file new_folder bytes_eq
classify text =
    first_match (timestamp text) (new_file text) (new_folder text) (bytes_eq text (codes "E"))
