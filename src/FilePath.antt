-- ===== src/FilePath.antt =====
-- Package path/filepath on unix, as scp/filesystem.go, scp/scp.go, scp/copy_from_client.go and
-- git/git.go call it: `Clean`, `Join` of two elements and `Dir`. A path is split at its slashes;
-- `Clean` keeps, as the Go loop does with its mark `dotdot`, the leading ".." apart from the names.
pub mod Split
pub mod Names
pub mod Laws
pub mod Idempotent
use mathlib.Core.List.{reverse}
use wish.Base.{
  ℕ, suc, ◌+◌, Bytes, codes, List, [], ◌∷◌, ◌++◌, Bool, true, false, ◌||◌, ◌==◌, bytes_eq,
  if◌then◌else◌, replicate, has_byte, ◌≡◌,
}

abbrev pub slash : ℕ
slash = b'/'

abbrev pub dot_dot : Bytes
dot_dot = b'.' ∷ b'.' ∷ []

-- The byte `c` in front of the first part.
abbrev pub push_byte : ℕ → List Bytes → List Bytes
push_byte c [] = (c ∷ []) ∷ []
push_byte c (p ∷ ps) = (c ∷ p) ∷ ps

-- `strings.Split(path, "/")`
unfoldable pub split_slash : Bytes → List Bytes
split_slash [] = [] ∷ []
split_slash (c ∷ s) = if c == slash then [] ∷ split_slash s else push_byte c (split_slash s)

-- Every part behind a slash.
abbrev pub slashed : List Bytes → Bytes
slashed [] = []
slashed (p ∷ ps) = slash ∷ (p ++ slashed ps)

-- `strings.Join(parts, "/")`
abbrev pub join_slash : List Bytes → Bytes
join_slash [] = []
join_slash (p ∷ ps) = p ++ slashed ps

abbrev pub is_rooted : Bytes → Bool
is_rooted [] = false
is_rooted (c ∷ s) = c == slash

-- What `Clean` has written: the ".." that it cannot back out of, and the names behind them, the
-- last one first.
pub record Cleaned : Type 0 where
  pub ups : ℕ
  pub names : List Bytes

-- A ".." element: back out of a name, or keep it if the path is not rooted.
abbrev pub back_out : Bool → ℕ → List Bytes → Cleaned
back_out rooted ups (n ∷ names) = record { ups = ups; names = names }
back_out true ups [] = record { ups = ups; names = [] }
back_out false ups [] = record { ups = suc ups; names = [] }

unfoldable pub clean_part : Bool → Cleaned → Bytes → Cleaned
unfolding bytes_eq
clean_part rooted c part =
    if bytes_eq part [] || bytes_eq part (codes ".")
    then c
    else if bytes_eq part dot_dot
    then back_out rooted c.ups c.names
    else record { ups = c.ups; names = part ∷ c.names }

unfoldable pub clean_parts : Bool → Cleaned → List Bytes → Cleaned
unfolding clean_part
clean_parts rooted c [] = c
clean_parts rooted c (part ∷ parts) = clean_parts rooted (clean_part rooted c part) parts

abbrev pub nothing_yet : Cleaned
nothing_yet = record { ups = 0; names = [] }

-- The elements of the cleaned path, in order.
abbrev pub elements : Cleaned → List Bytes
elements c = replicate c.ups dot_dot ++ reverse c.names

-- A path that is not rooted and has no elements is ".".
abbrev pub render : Bool → List Bytes → Bytes
render true parts = slash ∷ join_slash parts
render false [] = codes "."
render false (p ∷ ps) = join_slash (p ∷ ps)

unfoldable pub clean : Bytes → Bytes
unfolding clean_parts split_slash
clean path =
    render (is_rooted path) (elements (clean_parts (is_rooted path) nothing_yet (split_slash path)))

-- `Join(a, b)`: leading empty elements are dropped, the rest is joined and cleaned.
unfoldable pub join : Bytes → Bytes → Bytes
unfolding clean
join [] [] = []
join [] (c ∷ b) = clean (c ∷ b)
join (c ∷ a) b = clean ((c ∷ a) ++ slash ∷ b)

-- The path up to its last slash, the slash included.
unfoldable pub through_last_slash : Bytes → Bytes
unfolding has_byte
through_last_slash [] = []
through_last_slash (c ∷ s) =
    if (c == slash) || has_byte slash s then c ∷ through_last_slash s else []

-- `Dir(path)`
unfoldable pub dir : Bytes → Bytes
unfolding through_last_slash clean
dir path = clean (through_last_slash path)

-- An element that names an entry of a directory.
pub record IsName (p : Bytes) : Type 0 where
  pub nonempty : bytes_eq p [] ≡ false
  pub not_dot : bytes_eq p (codes ".") ≡ false
  pub not_dot_dot : bytes_eq p dot_dot ≡ false
  pub no_slash : has_byte slash p ≡ false
