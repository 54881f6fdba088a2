-- ===== src/Examples/GitMenu.antt =====
-- examples/git/main.go: a git server that shows a menu of its repositories to a session without a command.
pub mod Menu
pub mod Tests
use wish.Base.{Bytes, codes, List, [], ◌∷◌, ◌++◌, Option, none, some}
use wish.Session.{
  Session, Event, stdout, log, World, Action, Handler, Middleware, ◌>>◌, emit, nothing, print,
  println,
}
use wish.Middleware.{Logger, logging, with_middleware}
use wish.Git.{AccessLevel, read_write_access, Host, State, git_middleware}

-- What `os.ReadDir` gives: the names of the entries that it could read, and its error. The error is never
-- `fs.ErrNotExist` itself, which is wrapped where it is the cause.
abbrev pub Listing : Type 0
Listing = List Bytes × Option Bytes

abbrev pub menu_title : Bytes
menu_title = codes "\n### Repo Menu ###\n\n"

-- A bullet, in UTF-8, and the name.
abbrev pub entry_line : Bytes → Bytes
entry_line name = 226 ∷ 128 ∷ 162 ∷ codes " " ++ name ++ codes " - "

abbrev pub clone_line : (address name : Bytes) → Bytes
clone_line address name = codes "git clone ssh://" ++ address ++ codes "/" ++ name

module _ {S : Type 0} (address : Bytes) where
  abbrev pub logged : Option Bytes → Action S
  logged none = nothing
  logged (some text) = emit (log text)

  abbrev pub titled : List Bytes → Action S
  titled [] = nothing
  titled (d ∷ dirs) = emit (stdout menu_title)

  -- The loop over the entries
  unfoldable pub entries : List Bytes → Action S
  unfolding println
  entries [] = nothing
  entries (d ∷ dirs) = println (entry_line d) >> println (clone_line address d) >> entries dirs

  unfoldable pub closing : Action S
  unfolding print
  closing =
      print (codes "\n\n### Add some repos! ###\n\n")
      >> print (codes "> cd some_repo\n")
      >> print (codes "> git remote add wish_test ssh://" ++ address ++ codes "/some_repo\n")
      >> print (codes "> git push wish_test\n\n\n")

  abbrev pub menu : Listing → Action S
  unfolding entries closing
  menu (dirs, e) = logged e >> titled dirs >> entries dirs >> closing

  abbrev pub on_command : (S → Listing) → List Bytes → Action S → Action S
  on_command read_dir [] next w = (menu (read_dir w.state) >> next) w
  on_command read_dir (c ∷ args) next w = next w

  -- `gitListMiddleware`
  unfoldable pub git_list_middleware : (S → Listing) → Middleware S
  unfolding entries closing
  git_list_middleware read_dir next s = on_command read_dir s.command (next s)

-- The hooks of `app`, which give the same level to everybody; what they log is left out.
abbrev pub app_host : {D : Type 0} → AccessLevel → Host D → Host D
app_host access host = record host {
  auth_repo = λ repo pk d. (d, access);
  push = λ repo pk d. d;
  fetch = λ repo pk d. d;
}

-- The handler of the server.
unfoldable pub server_handler :
    {D : Type 0} → Host D → Bytes → Logger → (D → Listing) → Handler (State D)
unfolding with_middleware git_middleware git_list_middleware logging
server_handler host address logger read_dir = with_middleware (
    git_middleware (app_host read_write_access host) (codes ".repos")
    ∷ git_list_middleware address (λ s. read_dir s.disk)
    ∷ logging logger
    ∷ [])
