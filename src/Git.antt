-- ===== src/Git.antt =====
-- git/git.go: the middleware that serves git over a session. The hooks, the operating system, go-git
-- and the command `git` are parameters; each call of a hook or at a path is noted in the order in which it is made, the look at
-- the branches of a repository with its opening.
pub mod PktLine
pub mod Calls
pub mod Access
pub mod Climbing
pub mod Tests
use wish.Base.{
  ℕ, ◌+◌, Bytes, codes, List, [], ◌∷◌, ◌++◌, Bool, true, false, ◌||◌, Option, none, some, ◌==◌,
  bytes_eq, trim_prefix, count_byte, ltb, if◌then◌else◌,
}
use wish.FilePath.{slash, clean, join}
use wish.Session.{
  Session, Event, stdout, stderr, log, exit, World, Ran, Action, Handler, Middleware, and_then,
  ◌>>◌, emit,
}
use wish.Git.PktLine.{pkt_line}

-- `AccessLevel` is an `int`; `other_access` is any value without a name.
pub data AccessLevel : Type 0 where
  no_access read_only_access read_write_access admin_access other_access : AccessLevel

pub data GitError : Type 0 where
  not_authed system_malfunction invalid_repo : GitError
  other_error : Bytes → GitError

unfoldable pub error_text : GitError → Bytes
error_text not_authed = codes "you are not authorized to do this"
error_text system_malfunction = codes "something went wrong"
error_text invalid_repo = codes "invalid repo"
error_text (other_error text) = text

-- What `os.Stat` finds, and what go-git finds at the head of a repository.
pub data Stat : Type 0 where
  stat_found stat_not_exist : Stat
  stat_failed : Bytes → Stat

pub data Head : Type 0 where
  head_found reference_not_found : Head
  head_failed : Bytes → Head

pub data NextBranch : Type 0 where
  branch : Bytes → NextBranch
  no_branch : Bytes → NextBranch

pub data Call : Type 0 where
  auth_call : Bytes → Option Bytes → Call
  stat_call mkdir_call init_call open_call : Bytes → Call
  git_call : Bytes → List Bytes → Call
  push_call fetch_call : Bytes → Call

pub record RunResult (D : Type 0) : Type 0 where
  pub disk : D
  pub output : Bytes
  pub failed : Option Bytes

-- The parameters; `D` is whatever they keep: the disk, what the client still sends, their own data.
pub record Host (D : Type 0) : Type 0 where
  pub auth_repo : Bytes → Option Bytes → D → D × AccessLevel
  pub push : Bytes → Option Bytes → D → D
  pub fetch : Bytes → Option Bytes → D → D
  pub stat : Bytes → D → Stat
  pub mkdir_all : Bytes → D → D × Option Bytes
  pub plain_init : Bytes → D → D × Option Bytes
  pub plain_open : Bytes → D → Option Bytes
  pub branches : Bytes → D → Option Bytes
  pub next : Bytes → D → NextBranch
  pub head : Bytes → D → Head
  pub run : Bytes → List Bytes → D → RunResult D
  pub log_text : Bytes → GitError → Bytes

pub record State (D : Type 0) : Type 0 where
  pub disk : D
  pub calls : List Call

abbrev pub with_state : {D : Type 0} → World (State D) → Call → D → World (State D)
with_state w k d = record w { state = record { disk = d; calls = w.state.calls ++ k ∷ [] } }

-- A world and the error that the code returns in it, if any.
abbrev pub Result : Type 0 → Type 0
Result D = World (State D) × Option GitError

-- `strings.TrimSuffix(s, "/")`
unfoldable pub trim_slash : Bytes → Bytes
trim_slash [] = []
trim_slash (c ∷ []) = if c == slash then [] else c ∷ []
trim_slash (c ∷ d ∷ s) = c ∷ trim_slash (d ∷ s)

unfoldable pub repo_of : Bytes → Bytes
unfolding trim_slash trim_prefix clean
repo_of arg = clean (trim_slash (trim_prefix arg (codes "/")))

unfoldable pub can_write : AccessLevel → Bool
can_write read_write_access = true
can_write admin_access = true
can_write _ = false

unfoldable pub can_read : AccessLevel → Bool
can_read read_only_access = true
can_read read_write_access = true
can_read admin_access = true
can_read _ = false

unfoldable pub is_receive : Bytes → Bool
is_receive gc = bytes_eq gc (codes "git-receive-pack")

unfoldable pub is_upload : Bytes → Bool
is_upload gc = bytes_eq gc (codes "git-upload-archive") || bytes_eq gc (codes "git-upload-pack")

abbrev pub err_of : Option Bytes → Option GitError
err_of none = none
err_of (some e) = some (other_error e)

-- `fileExists`
abbrev pub found : Stat → Bool × Option GitError
found stat_found = (true, none)
found stat_not_exist = (false, none)
found (stat_failed e) = (true, some (other_error e))

module _ {D : Type 0} (host : Host D) where
  abbrev pub stat_at : Bytes → World (State D) → World (State D)
  stat_at p w = with_state w (stat_call p) w.state.disk

  unfoldable pub file_exists : Bytes → World (State D) → Bool × Option GitError
  file_exists p w = found (host.stat p w.state.disk)

  -- `if err != nil { return err }`
  abbrev pub if_fine : (World (State D) → Result D) → Result D → Result D
  if_fine k (w, none) = k w
  if_fine k (w, some e) = (w, some e)

  abbrev pub changed : Call → World (State D) → D × Option Bytes → Result D
  changed k w (d, e) = (with_state w k d, err_of e)

  -- `if !exists { ... }`, behind an error of `fileExists`
  abbrev pub unless_exists :
      (World (State D) → Result D) → Bool × Option GitError → World (State D) → Result D
  unless_exists k (x, some e) w = (w, some e)
  unless_exists k (true, none) w = (w, none)
  unless_exists k (false, none) w = k w

  -- `EnsureRepo`
  unfoldable pub ensure_dir : Bytes → World (State D) → Result D
  unfolding file_exists
  ensure_dir p w =
      unless_exists (λ v. changed (mkdir_call p) v (host.mkdir_all p v.state.disk))
        (file_exists p w) (stat_at p w)

  unfoldable pub ensure_init : Bytes → World (State D) → Result D
  unfolding file_exists
  ensure_init p w =
      unless_exists (λ v. changed (init_call p) v (host.plain_init p v.state.disk))
        (file_exists p w) (stat_at p w)

  unfoldable pub ensure_repo : Bytes → Bytes → World (State D) → Result D
  unfolding ensure_dir ensure_init join
  ensure_repo dir repo w = if_fine (ensure_init (join dir repo)) (ensure_dir dir w)

  abbrev pub said : Bytes → World (State D) → World (State D)
  said out w = record w { events = w.events ++ stdout out ∷ [] }

  -- `runGit`: the command talks to the session.
  unfoldable pub run_git : Bytes → List Bytes → World (State D) → Result D
  run_git dir args w =
      let r = host.run dir args w.state.disk in
      (said r.output (with_state w (git_call dir args) r.disk), err_of r.failed)

  -- `ensureDefaultBranch`
  abbrev pub rename_to : Bytes → Bytes → Head → World (State D) → Result D
  rename_to p b head_found w = (w, none)
  rename_to p b reference_not_found w = run_git p (codes "branch" ∷ codes "-M" ∷ b ∷ []) w
  rename_to p b (head_failed e) w = (w, some (other_error e))

  abbrev pub first_branch : Bytes → NextBranch → World (State D) → Result D
  first_branch p (no_branch e) w = (w, some (other_error e))
  first_branch p (branch b) w = rename_to p b (host.head p w.state.disk) w

  unfoldable pub ensure_default_branch : Bytes → World (State D) → Result D
  unfolding run_git
  ensure_default_branch p w =
      let v = with_state w (open_call p) w.state.disk in
      if_fine
        (λ w1.
          if_fine (λ w2. first_branch p (host.next p w2.state.disk) w2)
            (w1, err_of (host.branches p w1.state.disk)))
        (v, err_of (host.plain_open p v.state.disk))

  abbrev pub if_exists :
      (World (State D) → Result D) → Bool × Option GitError → World (State D) → Result D
  if_exists k (false, e) w = (w, some invalid_repo)
  if_exists k (true, some e) w = (w, some e)
  if_exists k (true, none) w = k w

  -- `gitPack`
  unfoldable pub upload : Bytes → Bytes → World (State D) → Result D
  unfolding file_exists run_git
  upload cmd rp w = if_exists (run_git [] (cmd ∷ rp ∷ [])) (file_exists rp w) (stat_at rp w)

  unfoldable pub receive : Bytes → Bytes → Bytes → World (State D) → Result D
  unfolding ensure_repo run_git ensure_default_branch join
  receive cmd dir repo w =
      let rp = join dir repo in
      if_fine (run_git rp (codes "update-server-info" ∷ [])) (
        if_fine (ensure_default_branch rp)
          (if_fine (run_git [] (cmd ∷ rp ∷ [])) (ensure_repo dir repo w)))

  unfoldable pub git_pack : Bytes → Bytes → Bytes → World (State D) → Result D
  unfolding upload receive is_upload is_receive trim_prefix join
  git_pack gc dir repo w =
      if is_upload gc
      then upload (trim_prefix gc (codes "git-")) (join dir repo) w
      else if is_receive gc
      then receive (trim_prefix gc (codes "git-")) dir repo w
      else (w, some (other_error (codes "unknown git command: " ++ gc)))

  -- `Fatal`
  unfoldable pub fatal : GitError → Action (State D)
  unfolding pkt_line error_text
  fatal e = emit (stdout (pkt_line (error_text e))) >> emit (exit 1)

  abbrev pub pushed : Bytes → Option Bytes → Action (State D)
  pushed repo pk w = (with_state w (push_call repo) (host.push repo pk w.state.disk), none)

  abbrev pub fetched : Bytes → Option Bytes → Action (State D)
  fetched repo pk w = (with_state w (fetch_call repo) (host.fetch repo pk w.state.disk), none)

  abbrev pub after_receive : Bytes → Option Bytes → Result D → Ran (State D)
  after_receive repo pk (w, none) = pushed repo pk w
  after_receive repo pk (w, some e) = fatal system_malfunction w

  abbrev pub unknown_error : GitError → Action (State D)
  unknown_error e =
      emit (log (host.log_text (codes "unknown git error") e)) >> fatal system_malfunction

  abbrev pub after_upload : Bytes → Option Bytes → Result D → Ran (State D)
  after_upload repo pk (w, none) = fetched repo pk w
  after_upload repo pk (w, some invalid_repo) = fatal invalid_repo w
  after_upload repo pk (w, some e) = unknown_error e w

  unfoldable pub serve :
      Bytes → Bytes → Bytes → Option Bytes → AccessLevel → Action (State D) → Action (State D)
  serve dir gc repo pk access next w =
      if is_receive gc
      then (if can_write access
          then after_receive repo pk (git_pack gc dir repo w)
          else fatal not_authed w)
      else if is_upload gc
      then (if can_read access
          then after_upload repo pk (git_pack gc dir repo w)
          else fatal not_authed w)
      else next w

  abbrev pub authed :
      Bytes
      → Bytes
      → Bytes
      → Option Bytes
      → Action (State D)
      → World (State D)
      → D × AccessLevel
      → Ran (State D)
  authed dir gc repo pk next w (d, access) =
      serve dir gc repo pk access next (with_state w (auth_call repo pk) d)

  abbrev pub on_command : Bytes → List Bytes → Option Bytes → Action (State D) → Action (State D)
  on_command dir (gc ∷ arg ∷ []) pk next w =
      let repo = repo_of arg in
      if ltb 1 (count_byte slash repo)
      then fatal invalid_repo w
      else authed dir gc repo pk next w (host.auth_repo repo pk w.state.disk)
  on_command dir _ pk next w = next w

  -- `Middleware`
  unfoldable pub git_middleware : Bytes → Middleware (State D)
  git_middleware dir sh s = on_command dir s.command s.public_key (sh s)
