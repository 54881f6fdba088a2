-- ===== src/Examples/Auth/Tests.antt =====
-- The server with three ways in, at concrete users; a key is its text.
use wish.Base.{
  ℕ, Bytes, bytes_eq, codes, [], ◌∷◌, ◌++◌, Bool, true, false, Option, none, some, ◌≡◌, ◌↔◌, refl,
}
use wish.Session.{stdout, Handler}
use wish.Middleware.Tests.{visiting, still, plain}
use wish.Server.{
  Server, empty_server, fine, failed, new_server, apply_options, with_address, with_public_key_auth,
  with_password_auth, with_keyboard_interactive_auth, with_middleware_option, with_host_key_path,
}
use wish.Server.Tests.{with_file, with_file-SetsSigners}
use wish.Server.Admission.{LetsIn}
use wish.Authorized.Tests.{texts}
use wish.Examples.Auth.{Users, valid_password, Challenger, questions, options, multi_auth_server}
use wish.Examples.Auth.Checks.{Has, Accepts}
use wish.Examples.Auth.Methods.{MethodLaws, multi_auth_server-Accepts}

abbrev pub same_key : Bytes → Option Bytes → Bool
same_key k none = false
same_key k (some l) = bytes_eq k l

abbrev pub table : Users
table = (codes "Ann", codes "ann") ∷ (codes "Eve", codes "?") ∷ []

-- It answers as it should.
abbrev clever : Bytes → Challenger
clever user asked echoes = some (codes "5" ∷ codes "vim" ∷ [])

with_file-MethodLaws : MethodLaws {S = ℕ} with_file
with_file-MethodLaws = record {
  sets_key = λ h s d. refl;
  sets_password = λ h s d. refl;
  sets_keyboard = λ h s d. refl;
  keeps = with_file-SetsSigners;
}

abbrev no_name : Option Bytes → Bytes
no_name k = codes "<nil>"

-- The server that the options give.
unfoldable three_ways : Server ℕ ℕ Bytes
unfolding multi_auth_server new_server
three_ways = elim (multi_auth_server with_file texts.parse same_key clever table plain no_name 0) [
  | fine s d ↦ s
  | failed e d ↦ empty_server
]

three_ways-returned :
    multi_auth_server with_file texts.parse same_key clever table plain no_name 0
    ≡ fine three_ways 0
unfolding three_ways multi_auth_server new_server apply_options options with_address
    with_public_key_auth with_password_auth with_keyboard_interactive_auth with_middleware_option
    with_host_key_path
three_ways-returned = refl

multi_auth_server-Accepts_example :
    (LetsIn with_file three_ways (codes "u") (codes "ann") 7
      ↔ Has texts.parse same_key table (codes "ann"))
    × (Accepts three_ways.password_handler (λ h. h (codes "u") (codes "no"))
        ↔ (codes "no" ≡ valid_password))
    × (Accepts three_ways.keyboard_handler (λ h. h (codes "u"))
        ↔ (clever (codes "u") questions (true ∷ true ∷ []) ≡ some (codes "5" ∷ codes "vim" ∷ [])))
    × ((h : Handler ℕ) × (three_ways.handler ≡ some h)
        × (h visiting still ≡ (
          record still {
            events =
                []
                ++ stdout (codes "Authorized!" ++ codes "\n")
                  ∷ stdout (no_name none ++ codes "\n")
                  ∷ [];
          },
          none,
        )))
multi_auth_server-Accepts_example =
    multi_auth_server-Accepts with_file with_file-MethodLaws texts.parse same_key clever table plain
      no_name three_ways 0 0 (codes "u") (codes "ann") 7 (codes "no") visiting still (λ k. refl)
      three_ways-returned
