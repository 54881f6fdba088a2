-- ===== src/Scp/Header/Laws.antt =====
-- The header lines that entries are written with, read back.
use wish.Base.{
  ℕ, zero, suc, ◌≤◌, ◌<◌, ◌^◌, Bytes, codes, [], ◌∷◌, ◌++◌, true, false, none, some, ◌≡◌, ◌≢◌, refl,
  arith, All, Lacks, Lacks-has_byte, length, ap,
}
use wish.Strconv.{is_digit, format_uint}
use wish.Strconv.RoundTrip.{length-octal, length-decimal, digits-format_uint, format_uint-ne-nil}
use wish.Scp.Stream.{newline}
use wish.Scp.Header.{
  digits, run, some_run, timestamp, new_folder, new_file, times, file_header, dir_header, end_dir,
  classify, first_match,
}

abbrev AllDigits : Bytes → Type 0
AllDigits = All (λ c. is_digit c ≡ true)

digits-append : (n : ℕ) (d s : Bytes) → length d ≡ n → AllDigits d → digits n (d ++ s) ≡ some (d, s)
unfolding digits
digits-append zero [] s e h = refl
digits-append zero (c ∷ d) s e h = absurd (omega arith)
digits-append (suc n) [] s e h = absurd (omega arith)
digits-append (suc n) (c ∷ d) s e (p, h) = rw (p, digits-append n d s (omega arith) h)

run-append :
    (d : Bytes) (c : ℕ) (s : Bytes)
    → AllDigits d
    → is_digit c ≡ false
    → run (d ++ c ∷ s) ≡ (d, c ∷ s)
unfolding run
run-append [] c s h n = rw n
run-append (x ∷ d) c s (p, h) n = rw (p, run-append d c s h n)

-- The octal mode: four digits exactly where the mode has a bit for the owner.
abbrev pub octal : ℕ → Bytes
octal m = b'0' ∷ format_uint 8 m

octal-AllDigits : (m : ℕ) → AllDigits (octal m)
octal-AllDigits m = (refl, digits-format_uint 8 m (omega arith) (omega arith))

some_run-ne-nil : (d s : Bytes) → d ≢ [] → some_run (d, s) ≡ some (d, s)
some_run-ne-nil [] s h = absurd (h refl)
some_run-ne-nil (c ∷ d) s h = refl

abbrev pub file_text : ℕ → ℕ → Bytes → Bytes
file_text m size name = b'C' ∷ (octal m ++ b' ' ∷ (format_uint 10 size ++ b' ' ∷ name))

new_file-file_text :
    (m size : ℕ) (name : Bytes)
    → 64 ≤ m
    → m < 512
    → Lacks newline name
    → new_file (file_text m size name) ≡ some (octal m, format_uint 10 size, name)
unfolding new_file
new_file-file_text m size name lo hi h = rw (
  digits-append 4 (octal m) (b' ' ∷ (format_uint 10 size ++ b' ' ∷ name))
      (omega (arith, length-octal m lo hi)) (octal-AllDigits m),
  run-append (format_uint 10 size) b' ' name
      (digits-format_uint 10 size (omega arith) (omega arith)) refl,
  some_run-ne-nil (format_uint 10 size) (b' ' ∷ name) (format_uint-ne-nil 10 size),
  Lacks-has_byte newline name h,
)

-- The header that is sent for a file is read as a file header with the same mode, size and name, if
-- the mode has three octal digits and the name no line feed.
pub classify-file_text :
    (m size : ℕ) (name : Bytes)
    → 64 ≤ m
    → m < 512
    → Lacks newline name
    → classify (file_text m size name) ≡ file_header (octal m) (format_uint 10 size) name
unfolding classify
classify-file_text m size name lo hi h =
    ap (λ o. first_match none o (new_folder (file_text m size name)) false)
      (new_file-file_text m size name lo hi h)

abbrev pub dir_text : ℕ → Bytes → Bytes
dir_text m name = b'D' ∷ (octal m ++ b' ' ∷ b'0' ∷ b' ' ∷ name)

new_folder-dir_text :
    (m : ℕ) (name : Bytes)
    → 64 ≤ m
    → m < 512
    → Lacks newline name
    → new_folder (dir_text m name) ≡ some (octal m, name)
unfolding new_folder
new_folder-dir_text m name lo hi h = rw (
  digits-append 4 (octal m) (b' ' ∷ b'0' ∷ b' ' ∷ name) (omega (arith, length-octal m lo hi))
      (octal-AllDigits m),
  Lacks-has_byte newline name h,
)

-- The header that is sent for a directory is read as a directory header with the same mode and name,
-- if the mode has three octal digits and the name no line feed.
pub classify-dir_text :
    (m : ℕ) (name : Bytes)
    → 64 ≤ m
    → m < 512
    → Lacks newline name
    → classify (dir_text m name) ≡ dir_header (octal m) name
unfolding classify
classify-dir_text m name lo hi h =
    ap (λ o. first_match none none o false) (new_folder-dir_text m name lo hi h)

abbrev pub times_text : ℕ → ℕ → Bytes
times_text m a =
    b'T' ∷ (format_uint 10 m ++ b' ' ∷ b'0' ∷ b' ' ∷ (format_uint 10 a ++ b' ' ∷ b'0' ∷ []))

timestamp-times_text :
    (m a : ℕ)
    → 10 ^ 9 ≤ m
    → m < 10 ^ 10
    → 10 ^ 9 ≤ a
    → a < 10 ^ 10
    → timestamp (times_text m a) ≡ some (format_uint 10 m, format_uint 10 a)
unfolding timestamp
timestamp-times_text m a m0 m1 a0 a1 = rw (
  digits-append 10 (format_uint 10 m) (b' ' ∷ b'0' ∷ b' ' ∷ (format_uint 10 a ++ b' ' ∷ b'0' ∷ []))
      (length-decimal m m0 m1) (digits-format_uint 10 m (omega arith) (omega arith)),
  digits-append 10 (format_uint 10 a) (b' ' ∷ b'0' ∷ []) (length-decimal a a0 a1)
      (digits-format_uint 10 a (omega arith) (omega arith)),
)

-- The line of times that is sent is read as the same two times, if each has ten digits.
pub classify-times_text :
    (m a : ℕ)
    → 10 ^ 9 ≤ m
    → m < 10 ^ 10
    → 10 ^ 9 ≤ a
    → a < 10 ^ 10
    → classify (times_text m a) ≡ times (format_uint 10 m) (format_uint 10 a)
unfolding classify
classify-times_text m a m0 m1 a0 a1 =
    ap (λ o. first_match o (new_file (times_text m a)) (new_folder (times_text m a)) false)
      (timestamp-times_text m a m0 m1 a0 a1)

pub classify_end : classify (codes "E") ≡ end_dir
unfolding classify
classify_end = refl
