-- ===== src/Server/Tests.antt =====
-- Servers at concrete options: keys are texts, and the disk counts the keys that were made.
use wish.Base.{ℕ, suc, Bytes, codes, List, [], ◌∷◌, ◌++◌, some, true, ◌≡◌, ◌↔◌, subst, refl}
use wish.Authorized.{authorized_keys, trusted_user_ca_keys}
use wish.Authorized.Listed.{Admitted}
use wish.Authorized.Tests.{texts, two_keys, bob_trusted}
use wish.Server.{
  Server, empty_server, fine, Host, stat_found, apply_options, new_server, with_public_key_auth,
  with_authorized_keys, with_trusted_user_ca_keys,
}
use wish.Server.Kept.{SetsSigners}
use wish.Server.Admission.{SshLaws, LetsIn, new_server-Admitted, new_server-Listed}

-- A server whose keys are texts; the disk counts, and its only file is the one of `two_keys`.
abbrev pub with_file : {S : Type 0} → Host S ℕ Bytes Bytes
with_file = record {
  stat = λ p d. stat_found;
  keygen_new = λ p d. fine p (suc d);
  host_key_file = λ p s d. fine (record s { host_signers = p ∷ s.host_signers }) d;
  host_key_pem = λ pem s d. fine (record s { host_signers = pem ∷ s.host_signers }) d;
  public_key_auth = λ h s d. fine (record s { public_key_handler = some h }) d;
  password_auth = λ h s d. fine (record s { password_handler = some h }) d;
  keyboard_interactive_auth = λ h s d. fine (record s { keyboard_handler = some h }) d;
  read_file = λ p d. some two_keys;
  ssh = texts;
}

fine-server : {S : Type 0} (s s' : Server S ℕ Bytes) (d d' : ℕ) → fine s d ≡ fine s' d' → s ≡ s'
fine-server s s' d d' e = cc e

pub with_file-SetsSigners : {S : Type 0} → SetsSigners {S = S} with_file
with_file-SetsSigners pem s s' d d' e =
    subst (λ t. t ≡ record s { host_signers = t.host_signers })
      (fine-server (record s { host_signers = pem ∷ s.host_signers }) s' d d' e) refl

with_file-SshLaws : SshLaws {S = ℕ} with_file
with_file-SshLaws = record { sets = λ h s d. refl; keeps = with_file-SetsSigners }

abbrev with_key : Server ℕ ℕ Bytes
with_key = record empty_server { host_signers = codes "id_ed25519" ∷ [] }

abbrev listing : Server ℕ ℕ Bytes
listing = record with_key {
  public_key_handler = some (λ user key e. authorized_keys texts (some two_keys) key);
}

abbrev signing : Server ℕ ℕ Bytes
signing = record with_key {
  public_key_handler = some (λ user key e. trusted_user_ca_keys texts (some two_keys) user key);
}

new_server-Admitted_example :
    LetsIn with_file listing (codes "u") (codes "bob") 7
    ↔ Admitted texts.parse (λ k. texts.keys_equal (codes "bob") k) two_keys.lines
unfolding new_server apply_options with_authorized_keys with_public_key_auth
new_server-Admitted_example =
    new_server-Admitted with_file with_file-SshLaws [] (codes "keys") listing 0 1 (codes "u")
      (codes "bob") 7 two_keys refl refl

bob_let_in : LetsIn with_file signing (codes "u") (codes "cbob") 7
bob_let_in = (_, refl, bob_trusted)

new_server-Listed_example :
    (cert : Bytes) × (l : Bytes) × (k : Bytes) × (texts.as_certificate (codes "cbob") ≡ some cert)
    × (texts.check_cert (codes "u") cert ≡ true)
    × ((before : List Bytes) × (after : List Bytes) × (two_keys.lines ≡ before ++ l ∷ after))
    × (texts.parse l ≡ some k)
    × (texts.marshal (texts.signature_key cert) ≡ texts.marshal k)
unfolding new_server apply_options with_trusted_user_ca_keys with_public_key_auth
new_server-Listed_example =
    new_server-Listed with_file with_file-SshLaws [] (codes "keys") signing 0 1 (codes "u")
      (codes "cbob") 7 two_keys refl refl bob_let_in
