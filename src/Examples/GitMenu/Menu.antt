-- ===== src/Examples/GitMenu/Menu.antt =====
-- What a session sees of the git server.
use wish.Base.{
  ◌-◌, Bytes, codes, List, [], ◌∷◌, ◌++◌, Option, none, some, ◌≡◌, refl, ap, sym, ◌∙◌, append_assoc,
  append-nil,
}
use wish.Session.{
  emit, Session, Event, stdout, log, World, Ran, and_then, ◌>>◌, nothing, print, println,
}
use wish.Middleware.{Logger, logging, connect_of, no_handler, with_middleware, compose}
use wish.Git.{read_write_access, Host, State, git_middleware}
use wish.Examples.GitMenu.{
  Listing, menu_title, entry_line, clone_line, logged, titled, entries, closing, menu,
  git_list_middleware, app_host, server_handler,
}

abbrev pub title_events : List Bytes → List Event
title_events [] = []
title_events (d ∷ dirs) = stdout menu_title ∷ []

-- Two lines for each repository, in order.
abbrev pub entry_events : Bytes → List Bytes → List Event
entry_events address [] = []
entry_events address (d ∷ dirs) =
    stdout (entry_line d ++ codes "\n")
    ∷ stdout (clone_line address d ++ codes "\n")
    ∷ entry_events address dirs

abbrev pub closing_events : Bytes → List Event
closing_events address =
    stdout (codes "\n\n### Add some repos! ###\n\n")
    ∷ stdout (codes "> cd some_repo\n")
    ∷ stdout (codes "> git remote add wish_test ssh://" ++ address ++ codes "/some_repo\n")
    ∷ stdout (codes "> git push wish_test\n\n\n")
    ∷ []

abbrev pub error_events : Option Bytes → List Event
error_events none = []
error_events (some text) = log text ∷ []

abbrev pub menu_events : Bytes → Listing → List Event
menu_events address (dirs, e) =
    error_events e ++ title_events dirs ++ entry_events address dirs ++ closing_events address

module _ {S : Type 0} (address : Bytes) where
  -- The world with these events behind.
  abbrev Says : (World S → Ran S) → List Event → Type 0
  Says f es = (w : World S) → f w ≡ (record w { events = w.events ++ es }, none)

  nothing-Says : Says nothing []
  nothing-Says w = ap (λ l. (record w { events = l }, none)) (sym (append-nil w.events))

  then-Says :
      (f g : World S → Ran S) (es fs : List Event)
      → Says f es
      → Says g fs
      → Says (f >> g) (es ++ fs)
  then-Says f g es fs p q w =
      ap (and_then g) (p w)
      ∙ q (record w { events = w.events ++ es })
      ∙ ap (λ l. (record w { events = l }, none)) (append_assoc w.events es fs)

  entries-Says : (dirs : List Bytes) → Says (entries address dirs) (entry_events address dirs)
  unfolding entries println
  entries-Says [] = nothing-Says
  entries-Says (d ∷ dirs) =
      then-Says (println (entry_line d) >> println (clone_line address d)) (entries address dirs)
        (stdout (entry_line d ++ codes "\n") ∷ stdout (clone_line address d ++ codes "\n") ∷ [])
        (entry_events address dirs)
        (then-Says (println (entry_line d)) (println (clone_line address d))
          (stdout (entry_line d ++ codes "\n") ∷ [])
          (stdout (clone_line address d ++ codes "\n") ∷ []) (λ w. refl) (λ w. refl))
        (entries-Says dirs)

  titled-Says : (dirs : List Bytes) → Says (titled address dirs) (title_events dirs)
  titled-Says [] = nothing-Says
  titled-Says (d ∷ dirs) = λ w. refl

  logged-Says : (e : Option Bytes) → Says (logged address e) (error_events e)
  logged-Says none = nothing-Says
  logged-Says (some text) = λ w. refl

  closing-Says : Says (closing address) (closing_events address)
  unfolding closing print
  closing-Says w = simp (append_assoc)

  menu-Says : (l : Listing) → Says (menu address l) (menu_events address l)
  unfolding menu
  menu-Says (dirs, e) =
      then-Says (logged address e >> titled address dirs >> entries address dirs) (closing address)
        (error_events e ++ title_events dirs ++ entry_events address dirs) (closing_events address)
        (then-Says (logged address e >> titled address dirs) (entries address dirs)
          (error_events e ++ title_events dirs) (entry_events address dirs)
          (then-Says (logged address e) (titled address dirs) (error_events e) (title_events dirs)
            (logged-Says e) (titled-Says dirs))
          (entries-Says dirs))
        (closing-Says)

module _ {D : Type 0} (host : Host D) (address : Bytes) (logger : Logger)
    (read_dir : D → Listing) where
  abbrev pub end_of : Session → World (State D) → List Event
  end_of s w =
      log (logger.disconnected (record { remote_addr = s.remote_addr; duration = w.now - w.now }))
      ∷ []

  without_command :
      (s : Session) (w : World (State D))
      → s.command ≡ []
      → git_list_middleware address
          (λ x. read_dir x.disk)
          (git_middleware (app_host read_write_access host) (codes ".repos") no_handler)
          s
          w
        ≡ (menu address (read_dir w.state.disk) >> nothing) w
  unfolding git_list_middleware git_middleware
  without_command s w e = rw e refl

  -- A session without a command is shown the repositories by the git server, two lines for each, in the order of
  -- the directory, with a title where there are any and what to do next behind them, between the two lines of the
  -- log; an error of the listing is logged, and nothing else is done.
  pub server_handler-menu :
      (s : Session) (w : World (State D))
      → s.command ≡ []
      → server_handler host address logger read_dir s w ≡ (
        record w {
          events =
              w.events
              ++ log (logger.connected (connect_of s)) ∷ []
              ++ menu_events address (read_dir w.state.disk)
              ++ end_of s w;
        },
        none,
      )
  unfolding server_handler with_middleware compose git_list_middleware git_middleware logging
  server_handler-menu s w e =
      let w1 = record w { events = w.events ++ log (logger.connected (connect_of s)) ∷ [] } in
      let disconnect = λ (w' : World (State D)).
        emit
          (log (
            logger.disconnected
              (record { remote_addr = s.remote_addr; duration = w'.now - w.now })))
          w' in
      ap (and_then disconnect) (
        without_command s w1 e
        ∙ ap (and_then nothing) (menu-Says address (read_dir w.state.disk) w1))

  -- Any other session is handled as if the menu were not there.
  pub server_handler-passes :
      (s : Session) (w : World (State D)) (name : Bytes) (args : List Bytes)
      → s.command ≡ name ∷ args
      → server_handler host address logger read_dir s w
        ≡ with_middleware
            (git_middleware (app_host read_write_access host) (codes ".repos")
              ∷ logging logger
              ∷ [])
            s
            w
  unfolding server_handler with_middleware compose git_list_middleware git_middleware logging
  server_handler-passes s w name args e = rw e refl
