-- ===== src/Authorized/Tests.antt =====
-- Files of keys at concrete inputs. A key is the text of its line; a certificate is a text that begins
-- with a "c", signed by the key that follows.
use wish.Base.{
  Bytes, codes, [], ◌∷◌, true, Option, none, some, bytes_eq, has_prefix, ◌≡◌, refl, if◌then◌else◌,
  ◌==◌,
}
use wish.Authorized.{
  Reads, at_eof, is_authorized, Ssh, trusted_user_ca_keys, is_skipped, is_blank_within, behind_any,
  check_lines, signed_by,
}

abbrev some_text : Bytes → Option Bytes
some_text l = if bytes_eq l (codes "?") then none else some l

abbrev certificate : Bytes → Option Bytes
certificate [] = none
certificate (c ∷ k) = if c == b'c' then some k else none

abbrev pub texts : Ssh Bytes Bytes
texts = record {
  parse = some_text;
  keys_equal = bytes_eq;
  as_certificate = certificate;
  signature_key = λ c. c;
  marshal = λ k. k;
  check_cert = λ user c. true;
}

abbrev pub two_keys : Reads
two_keys = record {
  lines = codes "# keys" ∷ [] ∷ codes "ann" ∷ codes "bob" ∷ codes "?" ∷ [];
  ending = at_eof;
}

pub bob_trusted : trusted_user_ca_keys texts (some two_keys) (codes "u") (codes "cbob") ≡ true
unfolding trusted_user_ca_keys is_authorized check_lines is_skipped is_blank_within behind_any
    has_prefix signed_by bytes_eq
bob_trusted = refl
