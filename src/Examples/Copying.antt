-- ===== src/Examples/Copying.antt =====
-- examples/scp/main.go: the server of the example, whose sessions copy with scp, and which has the subsystem "sftp".
-- The server of the package sftp is a parameter.
pub mod Rooted
pub mod Tests
use wish.Base.{ℕ, Bytes, codes, List, [], ◌∷◌, ◌++◌, Option, none, some}
use wish.Session.{Session, World, Ran, Handler, Event, log, ◌>>◌, emit, nothing, fatalln}
use wish.Server.{
  Server, Outcome, ServerOption, Host, with_address, with_host_key_path, with_subsystem,
  with_middleware_option, new_server,
}
use wish.Scp.Dispatch.{Link, Texts, scp_middleware}
use wish.Scp.FileSystem.{Os, State, new_file_system_handler}
use wish.Scp.FileSystem.Reads.{Disk}
use wish.Scp.Readers.{file_system_reader}
use wish.Scp.Send.{CopyToClientHandler}

-- What `Serve` returns: nil, `io.EOF`, or another error.
pub data Served : Type 0 where
  no_error end_of_input : Served
  served_error : Bytes → Served

-- A server of the package sftp, made for a session with the handlers of `Sftp`.
pub record RequestServer (S : Type 0) : Type 0 where
  pub serve : Session → World S → World S × Served
  pub close : Session → World S → World S × Option Bytes

module _ {S : Type 0} (server : RequestServer S) where
  abbrev pub after_close : World S × Option Bytes → Ran S
  unfolding fatalln
  after_close (w, none) = (w, none)
  after_close (w, some e) = fatalln (codes "sftp: " ++ e) w

  abbrev pub after_serve : Session → World S × Served → Ran S
  unfolding fatalln
  after_serve s (w, no_error) = (w, none)
  after_serve s (w, end_of_input) = after_close (server.close s w)
  after_serve s (w, served_error e) = fatalln (codes "sftp: " ++ e) w

  -- `sftpSubsystem`
  unfoldable pub sftp_subsystem : (root : Bytes) → Handler S
  unfolding fatalln
  sftp_subsystem root s =
      emit (log (codes "sftp " ++ root)) >> λ w. after_serve s (server.serve s w)

-- `wish.NewServer` with its options. The path of the host key is looked at before.
module _ {D X K C : Type 0} (host : Host (Link ℕ (State D)) X K C) where
  unfoldable pub scp_server :
      Texts
      → Os D
      → Disk
      → RequestServer (Link ℕ (State D))
      → (root : Bytes) → X
      → Outcome (Server (Link ℕ (State D)) X K) X
  unfolding new_server with_host_key_path with_address with_subsystem with_middleware_option
      scp_middleware sftp_subsystem file_system_reader
  scp_server texts os disk server root d =
      let (key_file, e) = with_host_key_path host (codes ".ssh/id_ed25519") d in
      new_server host
        (with_address (codes "localhost:23235")
          ∷ key_file
          ∷ with_subsystem (codes "sftp") (sftp_subsystem server root)
          ∷ with_middleware_option (
              scp_middleware texts (some (file_system_reader disk root))
                (some (new_file_system_handler os root))
              ∷ [])
          ∷ [])
        e
