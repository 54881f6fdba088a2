-- ===== src/Examples/Copying/Tests.antt =====
-- A client that uploads to a path that climbs out of the root.
use wish.Base.{ℕ, Bytes, codes, [], ◌∷◌, ◌++◌, none, some, true, false, ◌≡◌, refl}
use wish.FilePath.{render}
use wish.Session.{Session, World, Handler}
use wish.Server.{
  Server, fine, failed, empty_server, new_server, apply_options, with_address, with_host_key_path,
  with_subsystem, with_middleware_option,
}
use wish.Server.Tests.{with_file, with_file-SetsSigners}
use wish.Scp.Tests.{counting, srv-IsName}
use wish.Scp.Readers.Tests.{one_file}
use wish.Scp.Dispatch.{Link}
use wish.Scp.Dispatch.SessionTests.{short_texts, running}
use wish.Scp.FileSystem.{State}
use wish.Scp.FileSystem.Confined.{IsConfined}
use wish.Examples.Copying.{RequestServer, no_error, scp_server}
use wish.Examples.Copying.Rooted.{scp_server-IsConfined}

abbrev LinkedWorld : Type 0
LinkedWorld = World (Link ℕ (State ℕ))

abbrev idle_server : RequestServer (Link ℕ (State ℕ))
idle_server = record { serve = λ s w. (w, no_error); close = λ s w. (w, none) }

-- The server that the options give.
unfoldable srv_server : Server (Link ℕ (State ℕ)) ℕ Bytes
unfolding scp_server
srv_server =
    elim (scp_server with_file short_texts counting one_file idle_server
      (render true (codes "srv" ∷ [])) 0) [ fine s d ↦ s | failed e d ↦ empty_server ]

srv_server-returned :
    scp_server with_file short_texts counting one_file idle_server
      (render true (codes "srv" ∷ []))
      0
    ≡ fine srv_server 0
unfolding srv_server scp_server new_server apply_options with_address with_host_key_path
    with_subsystem with_middleware_option
srv_server-returned = refl

abbrev linked : LinkedWorld
linked = record {
  events = [];
  now = 0;
  state = record {
    stream = record { rest = codes "C0644 2 notes\nhi" ++ 0 ∷ []; cuts = []; broken = false };
    room = 9;
    reading = 0;
    writing = record { disk = 0; calls = [] };
  };
}

abbrev climbing : Session
climbing = running (codes "scp" ∷ codes "-t" ∷ codes "../../etc" ∷ [])

scp_server-IsConfined_example :
    (h : Handler (Link ℕ (State ℕ))) × (srv_server.handler ≡ some h)
    × IsConfined counting true (codes "srv") [] (h climbing linked).0.state.writing
scp_server-IsConfined_example =
    scp_server-IsConfined with_file short_texts counting one_file idle_server true (codes "srv") []
      srv_server 0 0 climbing linked with_file-SetsSigners (srv-IsName, tt) srv_server-returned tt
