-- ===== src/Examples/Identity.antt =====
-- examples/identity/main.go: a server that lets in every key of one type, and greets the users of a table by name. The
-- packages ssh are the record `Host` of `Server`; a key that a session shows is its text.
pub mod Named
pub mod Table
pub mod Tests
use wish.Base.{
  Bytes, bytes_eq, codes, List, [], ◌∷◌, ◌++◌, Bool, true, false, Option, none, some, if◌then◌else◌,
}
use wish.Session.{Session, Action, Middleware, ◌>>◌, println}
use wish.Middleware.{Logger, logging}
use wish.Server.{
  Server, Outcome, ServerOption, Host, with_address, with_host_key_path, with_public_key_auth,
  with_middleware_option, new_server,
}
use wish.Examples.Auth.{Users}

-- `keys_equal` is `ssh.KeysEqual`, with nil for a session without a key and for a text that cannot be parsed.
module _ {X K : Type 0} (parse : Bytes → Option K) (keys_equal : X → Option K → Bool) where
  -- The loop over the users, with the name that it greets.
  unfoldable pub name_of : Users → X → Option Bytes
  name_of [] key = none
  name_of ((name, text) ∷ users) key =
      if keys_equal key (parse text) then some name else name_of users key

abbrev pub greeting : Option Bytes → Bytes
greeting none = codes "Hey, I don't know who you are!"
greeting (some name) = codes "Hey " ++ name ++ codes "!"

module _ {K : Type 0} (parse : Bytes → Option K) (keys_equal : Option Bytes → Option K → Bool) where
  -- The middleware of `main`; both ways out of the loop call the next handler.
  unfoldable pub greet_by_name : {S : Type 0} → Users → Middleware S
  unfolding name_of println
  greet_by_name users next s =
      println (greeting (name_of parse keys_equal users s.public_key)) >> next s

-- The handler of keys; `type_of` is `Type` of a key.
unfoldable pub is_ed25519 : {K : Type 0} → (type_of : K → Bytes) → K → Bool
is_ed25519 type_of key = bytes_eq (type_of key) (codes "ssh-ed25519")

module _ {S D K C : Type 0} (host : Host S D K C) where
  -- `wish.NewServer` with its options; the path of the host key is looked at before.
  unfoldable pub identity_server :
      (K → Bytes)
      → (Bytes → Option K)
      → (Option Bytes → Option K → Bool)
      → Users
      → Logger
      → D
      → Outcome (Server S D K) D
  unfolding new_server with_host_key_path with_address with_public_key_auth with_middleware_option
      is_ed25519 greet_by_name logging
  identity_server type_of parse keys_equal users logger d =
      let (key_file, e) = with_host_key_path host (codes ".ssh/id_ed25519") d in
      new_server host
        (with_address (codes "localhost:23234")
          ∷ key_file
          ∷ with_public_key_auth host (λ user key d. is_ed25519 type_of key)
          ∷ with_middleware_option (greet_by_name parse keys_equal users ∷ logging logger ∷ [])
          ∷ [])
        e
