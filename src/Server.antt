-- ===== src/Server.antt =====
-- wish.go: `NewServer`, and the options of options.go. The server of the package ssh is what the options
-- set of it. What the options call of the packages ssh, keygen and os is the record `Host`; `D` is the
-- disk, and `S` the state of the application.
pub mod HostKeys
pub mod Subsystems
pub mod Kept
pub mod Admission
pub mod Tests
use wish.Base.{
  ℕ, Bytes, codes, List, [], ◌∷◌, ◌++◌, Bool, true, false, Option, none, some, bytes_eq,
  if◌then◌else◌,
}
use wish.Session.{Session, Action, Handler, Middleware}
use wish.Middleware.{with_middleware}
use wish.Authorized.{Reads, Ssh, authorized_keys, trusted_user_ca_keys}

-- The handlers of subsystems by their names, the last that was set first.
abbrev pub Subsystems : Type 0 → Type 0
Subsystems S = List (Bytes × Handler S)

pub record Server (S D K : Type 0) : Type 0 where
  pub addr : Bytes
  pub version : Bytes
  pub banner : Bytes
  pub banner_handler : Option (Bytes → Bytes)
  pub handler : Option (Handler S)
  pub host_signers : List K
  pub public_key_handler : Option ((user : Bytes) → K → D → Bool)
  pub password_handler : Option ((user password : Bytes) → Bool)
  pub keyboard_handler : Option ((user : Bytes) → Bool)
  pub idle_timeout : ℕ
  pub max_timeout : ℕ
  pub subsystem_handlers : Option (Subsystems S)

-- `&ssh.Server{}`
abbrev pub empty_server : {S D K : Type 0} → Server S D K
empty_server = record {
  addr = [];
  version = [];
  banner = [];
  banner_handler = none;
  handler = none;
  host_signers = [];
  public_key_handler = none;
  password_handler = none;
  keyboard_handler = none;
  idle_timeout = 0;
  max_timeout = 0;
  subsystem_handlers = none;
}

-- A value, or an error, and the disk.
pub data Outcome (A D : Type 0) : Type 0 where
  fine : A → D → Outcome A D
  failed : Bytes → D → Outcome A D

-- `ssh.Option`
abbrev pub ServerOption : Type 0 → Type 0 → Type 0 → Type 0
ServerOption S D K = Server S D K → D → Outcome (Server S D K) D

pub data Stat : Type 0 where
  stat_found stat_not_exist : Stat
  stat_failed : Bytes → Stat

-- What the code calls. `keygen_new` makes a key of the type ed25519 and writes it; `read_file` is what
-- `ReadLine` delivers of a file that can be opened.
pub record Host (S D K C : Type 0) : Type 0 where
  pub stat : Bytes → D → Stat
  pub keygen_new : Bytes → D → Outcome Bytes D
  pub host_key_file : Bytes → ServerOption S D K
  pub host_key_pem : Bytes → ServerOption S D K
  pub public_key_auth : (Bytes → K → D → Bool) → ServerOption S D K
  pub password_auth : (Bytes → Bytes → Bool) → ServerOption S D K
  pub keyboard_interactive_auth : (Bytes → Bool) → ServerOption S D K
  pub read_file : Bytes → D → Option Reads
  pub ssh : Ssh K C

-- `s.SubsystemHandlers[key] = h`, the map made first where there is none.
abbrev pub or_empty : {S : Type 0} → Option (Subsystems S) → Subsystems S
or_empty none = []
or_empty (some m) = m

-- `if err != nil { return nil, err }`
abbrev pub and_then : {A B D : Type 0} → (A → D → Outcome B D) → Outcome A D → Outcome B D
and_then k (fine a d) = k a d
and_then k (failed e d) = failed e d

module _ {S D K : Type 0} where
  unfoldable pub with_address : Bytes → ServerOption S D K
  with_address addr s d = fine (record s { addr = addr }) d

  unfoldable pub with_version : Bytes → ServerOption S D K
  with_version version s d = fine (record s { version = version }) d

  unfoldable pub with_banner : Bytes → ServerOption S D K
  with_banner banner s d = fine (record s { banner = banner }) d

  unfoldable pub with_banner_handler : (Bytes → Bytes) → ServerOption S D K
  with_banner_handler h s d = fine (record s { banner_handler = some h }) d

  unfoldable pub with_middleware_option : List (Middleware S) → ServerOption S D K
  unfolding with_middleware
  with_middleware_option mw s d = fine (record s { handler = some (with_middleware mw) }) d

  unfoldable pub with_idle_timeout : ℕ → ServerOption S D K
  with_idle_timeout t s d = fine (record s { idle_timeout = t }) d

  unfoldable pub with_max_timeout : ℕ → ServerOption S D K
  with_max_timeout t s d = fine (record s { max_timeout = t }) d

  unfoldable pub with_subsystem : Bytes → Handler S → ServerOption S D K
  with_subsystem key h s d =
      fine (record s { subsystem_handlers = some ((key, h) ∷ or_empty s.subsystem_handlers) }) d

  -- The loop of `NewServer` over its options.
  unfoldable pub apply_options : List (ServerOption S D K) → ServerOption S D K
  apply_options [] s d = fine s d
  apply_options (o ∷ os) s d = and_then (apply_options os) (o s d)

module _ {S D K C : Type 0} (host : Host S D K C) where
  -- `if len(s.HostSigners) == 0`
  abbrev pub with_some_key : List K → ServerOption S D K
  with_some_key (k ∷ ks) s d = fine s d
  with_some_key [] s d =
      and_then (λ pem e. host.host_key_pem pem s e) (host.keygen_new (codes "id_ed25519") d)

  -- `NewServer`
  unfoldable pub new_server : List (ServerOption S D K) → D → Outcome (Server S D K) D
  unfolding apply_options
  new_server ops d =
      and_then (λ s e. with_some_key s.host_signers s e) (apply_options ops empty_server d)

  -- `WithHostKeyPath`. A key is made at once, when the option is; its error is that of the option.
  abbrev pub key_made : Bytes → Outcome Bytes D → ServerOption S D K × D
  key_made path (fine pem d) = (host.host_key_file path, d)
  key_made path (failed e d) = ((λ s d'. failed e d'), d)

  abbrev pub key_at : Bytes → Stat → D → ServerOption S D K × D
  key_at path stat_not_exist d = key_made path (host.keygen_new path d)
  key_at path stat_found d = (host.host_key_file path, d)
  key_at path (stat_failed e) d = (host.host_key_file path, d)

  unfoldable pub with_host_key_path : Bytes → D → ServerOption S D K × D
  with_host_key_path path d = key_at path (host.stat path d) d

  unfoldable pub with_host_key_pem : Bytes → ServerOption S D K
  with_host_key_pem pem = host.host_key_pem pem

  unfoldable pub with_public_key_auth : ((user : Bytes) → K → D → Bool) → ServerOption S D K
  with_public_key_auth h = host.public_key_auth h

  unfoldable pub with_password_auth : ((user password : Bytes) → Bool) → ServerOption S D K
  with_password_auth p = host.password_auth p

  unfoldable pub with_keyboard_interactive_auth : ((user : Bytes) → Bool) → ServerOption S D K
  with_keyboard_interactive_auth h = host.keyboard_interactive_auth h

  abbrev pub if_stat : Stat → ServerOption S D K → ServerOption S D K
  if_stat stat_found k s d = k s d
  if_stat stat_not_exist k s d = failed (codes "stat") d
  if_stat (stat_failed e) k s d = failed e d

  -- `WithAuthorizedKeys`: the file is read anew for each key that is offered.
  unfoldable pub with_authorized_keys : Bytes → ServerOption S D K
  unfolding with_public_key_auth authorized_keys
  with_authorized_keys path s d =
      if_stat (host.stat path d)
        (with_public_key_auth (λ user key e. authorized_keys host.ssh (host.read_file path e) key))
        s d

  -- `WithTrustedUserCAKeys`
  unfoldable pub with_trusted_user_ca_keys : Bytes → ServerOption S D K
  unfolding with_public_key_auth trusted_user_ca_keys
  with_trusted_user_ca_keys path s d =
      if_stat (host.stat path d)
        (with_public_key_auth
          (λ user key e. trusted_user_ca_keys host.ssh (host.read_file path e) user key))
        s d
