-- ===== src/Examples/GitMenu/Tests.antt =====
-- A session without a command at the git server of the examples.
use wish.Base.{ℕ, codes, [], ◌∷◌, ◌++◌, none, some, ◌≡◌, refl}
use wish.Session.{log}
use wish.Middleware.{connect_of}
use wish.Middleware.Tests.{plain}
use wish.Git.Tests.{reading, asking, idle}
use wish.Examples.GitMenu.{Listing, server_handler}
use wish.Examples.GitMenu.Menu.{menu_events, end_of, server_handler-menu}

-- Two repositories, and an entry that could not be read.
abbrev repos : ℕ → Listing
repos d = (codes "app" ∷ codes "web" ∷ [], some (codes "partial"))

server_handler-menu_example :
    server_handler reading (codes "localhost:23233") plain repos (asking []) idle ≡ (
      record idle {
        events =
            []
            ++ log (plain.connected (connect_of (asking []))) ∷ []
            ++ menu_events (codes "localhost:23233") (repos 0)
            ++ end_of reading (codes "localhost:23233") plain repos (asking []) idle;
      },
      none,
    )
server_handler-menu_example =
    server_handler-menu reading (codes "localhost:23233") plain repos (asking []) idle refl
