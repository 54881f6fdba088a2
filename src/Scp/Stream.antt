-- ===== src/Scp/Stream.antt =====
-- The client's bytes behind a `bufio.Reader`, and scp/limit_reader.go. How much a single read
-- delivers is not the program's choice: `cuts` holds, for the reads to come, the largest number of
-- bytes less one; a read for which it has no entry delivers all that it can. `broken` says whether
-- the stream ends with an error or with EOF.
pub mod Limits
pub mod Portions
use wish.Base.{
  ℕ, zero, suc, ◌+◌, ◌-◌, ◌<◌, Bytes, List, [], ◌∷◌, ◌++◌, Bool, true, false, ltb, leb, ◌==◌,
  if◌then◌else◌, length, take, drop,
}

pub record Stream : Type 0 where
  pub rest : Bytes
  pub cuts : List ℕ
  pub broken : Bool

pub data Status : Type 0 where
  fine eof failed : Status

-- What a call of `Read` gives: the bytes, the error, and the reader behind it.
pub record Got (R : Type 0) : Type 0 where
  pub bytes : Bytes
  pub status : Status
  pub reader : R

abbrev pub cut_of : List ℕ → ℕ → ℕ
cut_of [] n = n
cut_of (c ∷ cs) n = if ltb c n then suc c else n

abbrev pub later_cuts : List ℕ → List ℕ
later_cuts [] = []
later_cuts (c ∷ cs) = cs

-- `Read(b)` with `n = len(b)`
unfoldable pub read : ℕ → Stream → Got Stream
read n s = elim s.rest [
  | [] ↦ record { bytes = []; status = if s.broken then failed else eof; reader = s }
  | c ∷ cs ↦ record {
    bytes = take (cut_of s.cuts n) s.rest;
    status = fine;
    reader = record s { rest = drop (cut_of s.cuts n) s.rest; cuts = later_cuts s.cuts };
  }
]

-- `ReadByte`, whose result the program drops.
unfoldable pub skip_byte : Stream → Stream
skip_byte s = record s { rest = drop 1 s.rest }

pub record LimitReader : Type 0 where
  pub r : Stream
  pub left : ℕ

abbrev pub smaller : ℕ → ℕ → ℕ
smaller a b = if ltb b a then b else a

-- `limitReader.Read`
unfoldable pub limit_read : ℕ → LimitReader → Got LimitReader
unfolding read
limit_read n l =
    if leb l.left 0
    then record { bytes = []; status = eof; reader = l }
    else let g = read (smaller n l.left) l.r in
      record {
        bytes = g.bytes;
        status = g.status;
        reader = record { r = g.reader; left = l.left - length g.bytes };
      }

abbrev pub newline : ℕ
newline = b'\n'

-- `ReadString('\n')`, the newline trimmed; or the error at the end of the stream, where the bytes
-- of an unfinished line are consumed.
pub data Line : Type 0 where
  line : Bytes → Stream → Line
  no_line : Status → Stream → Line

abbrev grow_line : ℕ → Line → Line
grow_line c (line b s) = line (c ∷ b) s
grow_line c (no_line e s) = no_line e s

unfoldable pub read_line_from : Bytes → Stream → Line
read_line_from [] s = no_line (if s.broken then failed else eof) (record s { rest = [] })
read_line_from (c ∷ b) s =
    if c == newline then line [] (record s { rest = b }) else grow_line c (read_line_from b s)

unfoldable pub read_line : Stream → Line
unfolding read_line_from
read_line s = read_line_from s.rest s
