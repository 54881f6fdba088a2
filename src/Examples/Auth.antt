-- ===== src/Examples/Auth.antt =====
-- examples/multi-auth/main.go: a server that lets a client in by key, by password, or by two questions. The
-- packages ssh are the record `Host` of `Server`, and the keys in the table of users are read by `parse`.
pub mod Checks
pub mod Methods
pub mod Tests
use wish.Base.{
  ℕ, Bytes, bytes_eq, codes, List, [], ◌∷◌, ◌++◌, Bool, true, false, ◌&&◌, Option, none, some,
  if◌then◌else◌,
}
use wish.Session.{Session, Action, Handler, Middleware, ◌>>◌, println}
use wish.Middleware.{Logger, logging}
use wish.Server.{
  Server, Outcome, ServerOption, Host, with_address, with_host_key_path, with_public_key_auth,
  with_password_auth, with_keyboard_interactive_auth, with_middleware_option, new_server,
}

-- `users`, in the order in which a loop over the map gives them.
abbrev pub Users : Type 0
Users = List (Bytes × Bytes)

-- `validPassword`
abbrev pub valid_password : Bytes
valid_password = codes "asd123"

-- `keys_equal key none` is `ssh.KeysEqual` with the nil key, which `ParseAuthorizedKey` leaves beside an error.
unfoldable pub has_key :
    {K : Type 0}
    → (parse : Bytes → Option K) → (keys_equal : K → Option K → Bool) → Users
    → K
    → Bool
has_key parse keys_equal [] key = false
has_key parse keys_equal ((name, text) ∷ users) key =
    if keys_equal key (parse text) then true else has_key parse keys_equal users key

unfoldable pub is_password : Bytes → Bool
is_password password = bytes_eq password valid_password

-- The questions and the echoes, to the answers or an error.
abbrev pub Challenger : Type 0
Challenger = List Bytes → List Bool → Option (List Bytes)

-- A diamond, in UTF-8, and a question.
abbrev pub question : Bytes → Bytes
question text = 226 ∷ 153 ∷ 166 ∷ codes " " ++ text

abbrev pub questions : List Bytes
questions =
    question (codes "How much is 2+3: ")
    ∷ question (codes "Which editor is best, vim or emacs? ")
    ∷ []

abbrev pub are_right : Option (List Bytes) → Bool
are_right none = false
are_right (some (a ∷ b ∷ [])) = bytes_eq a (codes "5") && bytes_eq b (codes "vim")
are_right (some _) = false

unfoldable pub answers_right : Challenger → Bool
answers_right challenger = are_right (challenger questions (true ∷ true ∷ []))

-- The middleware of the example, which does not call the next handler; `key_text` is how a key is printed.
unfoldable pub greet : {S : Type 0} → (key_text : Option Bytes → Bytes) → Middleware S
unfolding println
greet key_text next s = println (codes "Authorized!") >> println (key_text s.public_key)

-- `wish.NewServer` with its options. The path of the host key is looked at before; a challenger is that of a user.
module _ {S D K C : Type 0} (host : Host S D K C) where
  abbrev pub options :
      ServerOption S D K
      → (Bytes → Option K)
      → (K → Option K → Bool)
      → (Bytes → Challenger)
      → Users
      → Logger
      → (Option Bytes → Bytes)
      → List (ServerOption S D K)
  unfolding with_address with_public_key_auth with_password_auth with_keyboard_interactive_auth
      with_middleware_option has_key is_password answers_right greet logging
  options key_file parse keys_equal challengers users logger key_text =
      with_address (codes "localhost:23234")
      ∷ key_file
      ∷ with_public_key_auth host (λ user key d. has_key parse keys_equal users key)
      ∷ with_password_auth host (λ user password. is_password password)
      ∷ with_keyboard_interactive_auth host (λ user. answers_right (challengers user))
      ∷ with_middleware_option (logging logger ∷ greet key_text ∷ [])
      ∷ []

  unfoldable pub multi_auth_server :
      (Bytes → Option K)
      → (K → Option K → Bool)
      → (Bytes → Challenger)
      → Users
      → Logger
      → (Option Bytes → Bytes)
      → D
      → Outcome (Server S D K) D
  unfolding new_server with_host_key_path
  multi_auth_server parse keys_equal challengers users logger key_text d =
      let (key_file, e) = with_host_key_path host (codes ".ssh/id_ed25519") d in
      new_server host (options key_file parse keys_equal challengers users logger key_text) e
