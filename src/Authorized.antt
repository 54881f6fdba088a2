-- ===== src/Authorized.antt =====
-- options.go: `isAuthorized`, and the handlers of `WithAuthorizedKeys` and `WithTrustedUserCAKeys`. The
-- keys, their parser and the checker of certificates are those of the ssh packages, as parameters. A
-- file is what the calls of `ReadLine` deliver of it: lines (a long one in pieces), and how they end.
pub mod Listed
pub mod Tests
use wish.Base.{
  ℕ, zero, suc, Bytes, codes, List, [], ◌∷◌, ◌++◌, Bool, true, false, ◌||◌, not, Option, none, some,
  bytes_eq, has_prefix, if◌then◌else◌, length, drop,
}

pub data Ending : Type 0 where
  at_eof broken_off : Ending

pub record Reads : Type 0 where
  pub lines : List Bytes
  pub ending : Ending

-- The white space of `strings.TrimSpace`, in UTF-8.
abbrev pub spaces : List Bytes
spaces =
    (9 ∷ [])
    ∷ (10 ∷ [])
    ∷ (11 ∷ [])
    ∷ (12 ∷ [])
    ∷ (13 ∷ [])
    ∷ (32 ∷ [])
    ∷ (194 ∷ 133 ∷ [])
    ∷ (194 ∷ 160 ∷ [])
    ∷ (225 ∷ 154 ∷ 128 ∷ [])
    ∷ (226 ∷ 128 ∷ 128 ∷ [])
    ∷ (226 ∷ 128 ∷ 129 ∷ [])
    ∷ (226 ∷ 128 ∷ 130 ∷ [])
    ∷ (226 ∷ 128 ∷ 131 ∷ [])
    ∷ (226 ∷ 128 ∷ 132 ∷ [])
    ∷ (226 ∷ 128 ∷ 133 ∷ [])
    ∷ (226 ∷ 128 ∷ 134 ∷ [])
    ∷ (226 ∷ 128 ∷ 135 ∷ [])
    ∷ (226 ∷ 128 ∷ 136 ∷ [])
    ∷ (226 ∷ 128 ∷ 137 ∷ [])
    ∷ (226 ∷ 128 ∷ 138 ∷ [])
    ∷ (226 ∷ 128 ∷ 168 ∷ [])
    ∷ (226 ∷ 128 ∷ 169 ∷ [])
    ∷ (226 ∷ 128 ∷ 175 ∷ [])
    ∷ (226 ∷ 129 ∷ 159 ∷ [])
    ∷ (227 ∷ 128 ∷ 128 ∷ [])
    ∷ []

-- The text behind the first of the prefixes that it has.
unfoldable pub behind_any : List Bytes → Bytes → Option Bytes
unfolding has_prefix
behind_any [] s = none
behind_any (p ∷ ps) s = if has_prefix s p then some (drop (length p) s) else behind_any ps s

-- `TrimSpace(s) == ""`. A space has a byte at least, so as many rounds as there are bytes are enough.
unfoldable pub is_blank_within : ℕ → Bytes → Bool
unfolding behind_any
is_blank_within fuel [] = true
is_blank_within zero (c ∷ s) = false
is_blank_within (suc fuel) (c ∷ s) = elim (behind_any spaces (c ∷ s)) [
  | none ↦ false
  | some t ↦ is_blank_within fuel t
]

-- A line that is passed over: a blank one, or a comment.
unfoldable pub is_skipped : Bytes → Bool
unfolding is_blank_within has_prefix
is_skipped l = is_blank_within (length l) l || has_prefix l (codes "#")

-- What the loop comes to; the last two both mean `false`, and the last one is logged.
pub data Verdict : Type 0 where
  admitted not_admitted failed_to_parse : Verdict

abbrev pub is_admitted : Verdict → Bool
is_admitted admitted = true
is_admitted not_admitted = false
is_admitted failed_to_parse = false

abbrev pub at_end : Ending → Verdict
at_end at_eof = not_admitted
at_end broken_off = failed_to_parse

module _ {K : Type 0} (parse : Bytes → Option K) (checker : K → Bool) where
  abbrev pub check_key : Option K → Verdict → Verdict
  check_key none rest = failed_to_parse
  check_key (some k) rest = if checker k then admitted else rest

  unfoldable pub check_lines : List Bytes → Ending → Verdict
  check_lines [] e = at_end e
  check_lines (l ∷ ls) e =
      if is_skipped l then check_lines ls e else check_key (parse l) (check_lines ls e)

  abbrev pub check_file : Option Reads → Verdict
  check_file none = failed_to_parse
  check_file (some r) = check_lines r.lines r.ending

  -- `isAuthorized`; the file is `none` where it cannot be opened.
  unfoldable pub is_authorized : Option Reads → Bool
  unfolding check_lines
  is_authorized f = is_admitted (check_file f)

-- What the handlers use of the ssh packages.
pub record Ssh (K C : Type 0) : Type 0 where
  pub parse : Bytes → Option K
  pub keys_equal : K → K → Bool
  pub as_certificate : K → Option C
  pub signature_key : C → K
  pub marshal : K → Bytes
  pub check_cert : (user : Bytes) → C → Bool

module _ {K C : Type 0} (ssh : Ssh K C) where
  -- The handler of `WithAuthorizedKeys`
  unfoldable pub authorized_keys : Option Reads → K → Bool
  unfolding is_authorized
  authorized_keys f key = is_authorized ssh.parse (λ k. ssh.keys_equal key k) f

  -- The check of a certificate against one of the authorities.
  unfoldable pub signed_by : Bytes → C → K → Bool
  unfolding bytes_eq
  signed_by user cert k =
      if not (bytes_eq (ssh.marshal (ssh.signature_key cert)) (ssh.marshal k))
      then false
      else if not (ssh.check_cert user cert)
      then false
      else true

  abbrev pub check_certificate : Option Reads → Bytes → Option C → Bool
  check_certificate f user none = false
  check_certificate f user (some cert) = is_authorized ssh.parse (signed_by user cert) f

  -- The handler of `WithTrustedUserCAKeys`
  unfoldable pub trusted_user_ca_keys : Option Reads → Bytes → K → Bool
  unfolding is_authorized signed_by
  trusted_user_ca_keys f user key = check_certificate f user (ssh.as_certificate key)
