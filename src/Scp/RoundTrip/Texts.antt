-- ===== src/Scp/RoundTrip/Texts.antt =====
-- The lines of an entry as texts with a newline, and what they hold.
use wish.Base.{
  ℕ, ◌≤◌, ◌<◌, ◌^◌, Bytes, [], ◌∷◌, ◌++◌, Bool, true, false, ltb, ◌&&◌, if◌then◌else◌, All,
  All-append, Lacks, ◌≡◌, arith, ap, append_assoc, ◌⊎◌, ◌≢◌,
}
use wish.FilePath.{IsName}
use wish.Strconv.{is_digit, format_uint}
use wish.Strconv.RoundTrip.{digits-format_uint}
use wish.Scp.Entry.{FileEntry, DirInfo, perm, is_valid_name, times_line, file_line, dir_line}
use wish.Scp.Stream.{newline}
use wish.Scp.Header.Laws.{file_text, dir_text, times_text}

unfoldable pub known : ℕ → ℕ → Bool
known m a = ltb 0 m && ltb 0 a

-- Times that are not sent, or that have ten digits each.
abbrev pub TimesFit : ℕ → ℕ → Type 0
TimesFit m a = (known m a ≡ false) ⊎ ((10 ^ 9 ≤ m) × (m < 10 ^ 10) × (10 ^ 9 ≤ a) × (a < 10 ^ 10))

pub times_line_text :
    (m a : ℕ) → times_line m a ≡ (if known m a then times_text m a ++ newline ∷ [] else [])
unfolding times_line known
times_line_text m a = ap (λ t. if known m a then t else []) (simp append_assoc)

pub file_line_text :
    (e : FileEntry) → file_line e ≡ file_text (perm e.mode) e.size e.name ++ newline ∷ []
unfolding file_line
file_line_text e = simp append_assoc

pub dir_line_text : (d : DirInfo) → dir_line d ≡ dir_text (perm d.mode) d.name ++ newline ∷ []
unfolding dir_line
dir_line_text d = simp append_assoc

pub is_valid_name-IsName : (name : Bytes) → is_valid_name name ≡ true → IsName name
unfolding is_valid_name
is_valid_name-IsName name h = ground arith

digit-Lacks : (d : Bytes) → All (λ c. is_digit c ≡ true) d → Lacks newline d
digit-Lacks [] h = tt
digit-Lacks (c ∷ d) (p, h) = (ground arith, digit-Lacks d h)

format-Lacks : (base n : ℕ) → 2 ≤ base → base ≤ 10 → Lacks newline (format_uint base n)
format-Lacks base n p q = digit-Lacks (format_uint base n) (digits-format_uint base n p q)

between :
    (c : ℕ) (xs ys : Bytes)
    → Lacks newline xs
    → Lacks newline (c ∷ ys)
    → Lacks newline (xs ++ c ∷ ys)
between c xs ys h k = All-append (λ d. d ≢ newline) xs (c ∷ ys) h k

pub texts-Lacks_file :
    (p size : ℕ) (name : Bytes) → Lacks newline name → Lacks newline (file_text p size name)
texts-Lacks_file p size name h = (
  omega arith,
  (
    omega arith,
    between b' ' (format_uint 8 p) (format_uint 10 size ++ b' ' ∷ name)
        (format-Lacks 8 p (omega arith) (omega arith))
        (
          omega arith,
          between b' ' (format_uint 10 size) name (format-Lacks 10 size (omega arith) (omega arith))
              (omega arith, h),
        ),
  ),
)

pub texts-Lacks_dir : (p : ℕ) (name : Bytes) → Lacks newline name → Lacks newline (dir_text p name)
texts-Lacks_dir p name h = (
  omega arith,
  (
    omega arith,
    between b' ' (format_uint 8 p) (b'0' ∷ b' ' ∷ name)
        (format-Lacks 8 p (omega arith) (omega arith))
        (omega arith, (omega arith, (omega arith, h))),
  ),
)

pub texts-Lacks_times : (m a : ℕ) → Lacks newline (times_text m a)
texts-Lacks_times m a = (
  omega arith,
  between b' ' (format_uint 10 m) (b'0' ∷ b' ' ∷ (format_uint 10 a ++ b' ' ∷ b'0' ∷ []))
      (format-Lacks 10 m (omega arith) (omega arith))
      (
        omega arith,
        (
          omega arith,
          (
            omega arith,
            between b' ' (format_uint 10 a) (b'0' ∷ [])
                (format-Lacks 10 a (omega arith) (omega arith)) (omega arith),
          ),
        ),
      ),
)
