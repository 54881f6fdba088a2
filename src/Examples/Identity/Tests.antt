-- ===== src/Examples/Identity/Tests.antt =====
-- Two orders of a table of users.
use mathlib.Core.Equiv.{IsContr}
use mathlib.Core.List.Perm
use wish.Base.{
  ℕ, Bytes, bytes_eq, codes, [], ◌∷◌, Bool, false, Option, none, some, ◌≡◌, inl, inr, ◌∙◌, sym,
  refl,
}
use wish.Session.{Session, Handler}
use wish.Middleware.Tests.{visiting, still, plain}
use wish.Server.{
  Server, fine, failed, empty_server, new_server, apply_options, with_address, with_host_key_path,
  with_public_key_auth, with_middleware_option,
}
use wish.Server.Tests.{with_file, with_file-SetsSigners}
use wish.Authorized.Tests.{texts}
use wish.Examples.Auth.{Users}
use wish.Examples.Auth.Tests.{same_key, table}
use wish.Examples.Identity.{identity_server}
use wish.Examples.Identity.Named.{HasOwnKeys, Named, identity_server-Perm}
use wish.Examples.Identity.Table.{Table, Loops, has_key-Table}

abbrev shows : Option Bytes → Option Bytes → Bool
shows none l = false
shows (some k) none = false
shows (some k) (some l) = bytes_eq k l

abbrev other_order : Users
other_order = (codes "Eve", codes "?") ∷ (codes "Ann", codes "ann") ∷ []

abbrev as_ann : Session
as_ann = record visiting { public_key = some (codes "ann") }

only_ann : (n : Bytes) → Named texts.parse shows (some (codes "ann")) n table → n ≡ codes "Ann"
unfolding bytes_eq
only_ann n (inl (e, c)) = sym e
only_ann n (inr (inl (e, c))) = absurd (cc c)
only_ann n (inr (inr k)) = absurd k

table-HasOwnKeys : HasOwnKeys texts.parse shows (some (codes "ann")) table
table-HasOwnKeys n m p q = only_ann n p ∙ sym (only_ann m q)

abbrev any_type : Bytes → Bytes
any_type k = codes "ssh-ed25519"

unfoldable server_of : Users → Server ℕ ℕ Bytes
unfolding identity_server
server_of users = elim (identity_server with_file any_type texts.parse shows users plain 0) [
  | fine s d ↦ s
  | failed e d ↦ empty_server
]

server_of-returned :
    (users : Users)
    → identity_server with_file any_type texts.parse shows users plain 0 ≡ fine (server_of users) 0
unfolding server_of identity_server new_server apply_options with_address with_host_key_path
    with_public_key_auth with_middleware_option
server_of-returned users = refl

identity_server-Perm_example :
    (h : Handler ℕ) × (k : Handler ℕ) × ((server_of table).handler ≡ some h)
    × ((server_of other_order).handler ≡ some k)
    × (h as_ann still ≡ k as_ann still)
identity_server-Perm_example =
    identity_server-Perm with_file any_type texts.parse shows plain table other_order
      (server_of table) (server_of other_order) 0 0 0 0 as_ann still with_file-SetsSigners
      (Perm.swap (codes "Eve", codes "?") (codes "Ann", codes "ann") []) table-HasOwnKeys
      (server_of-returned table) (server_of-returned other_order)

has_key-Table_example : IsContr ((f : Table → Bool) × Loops texts.parse same_key (codes "ann") f)
has_key-Table_example = has_key-Table texts.parse same_key (codes "ann")
