-- ===== src/Examples/Copying/Rooted.antt =====
-- Where the server of the example writes.
use wish.Base.{
  ℕ, Bytes, codes, List, [], ◌∷◌, Bool, true, false, Option, none, some, ◌≡◌, refl, sym, subst, All,
}
use wish.FilePath.{IsName, render}
use wish.Session.{Session, World, Handler, fatal, error}
use wish.Middleware.{with_middleware}
use wish.Server.{
  Server, fine, Host, with_address, with_host_key_path, with_subsystem, with_middleware_option,
}
use wish.Server.Kept.{SetsSigners, IfFine, new_server-IfFine}
use wish.Scp.Info.{Op, unset, copy_to_client, copy_from_client, Info, get_info}
use wish.Scp.Entry.{Writer}
use wish.Scp.Receive.{
  Conn, Result, finished, out_of_fuel, failure, copy_from_client as receive_all,
  CopyFromClientHandler,
}
use wish.Scp.Send.{CopyToClientHandler, SendError, copy_to_client as send}
use wish.Scp.FileSystem.{Os, State, new_file_system_handler}
use wish.Scp.FileSystem.Confined.{IsConfined, copy_from_client-still-IsConfined}
use wish.Scp.FileSystem.Reads.{Disk}
use wish.Scp.Readers.{file_system_reader}
use wish.Scp.Dispatch.{
  Link, Texts, failed_with, after_send, after_receive, on_op, on_info, scp_middleware,
}
use wish.Examples.Copying.{RequestServer, sftp_subsystem, scp_server}

module _ {R W : Type 0} (texts : Texts) where
  failed_with-state :
      (o : Option Bytes) (w : World (Link R W)) → (failed_with texts o w).0.state ≡ w.state
  unfolding fatal error
  failed_with-state none w = refl
  failed_with-state (some e) w = refl

module _ {R W : Type 0} (texts : Texts) (rh : CopyToClientHandler R) (h : CopyFromClientHandler W)
    (P : W → Type 0) where
  after_send-keeps :
      (w : World (Link R W)) (x : R × Writer × Option SendError)
      → P w.state.writing
      → P (after_send texts w x).0.state.writing
  after_send-keeps w (s, out, none) p = p
  after_send-keeps w (s, out, some e) p =
      subst (λ l. P l.writing) (sym (failed_with-state texts (some (texts.send_text e)) _)) p

  after_receive-keeps :
      (w : World (Link R W)) (x : Conn W × Result)
      → P x.0.state
      → P (after_receive texts w x).0.state.writing
  after_receive-keeps w (c, finished) p = p
  after_receive-keeps w (c, out_of_fuel) p = p
  after_receive-keeps w (c, failure e) p =
      subst (λ l. P l.writing) (sym (failed_with-state texts (some (texts.receive_text e)) _)) p

  module _
      (receives : (path : Bytes) (c : Conn W) → P c.state → P (receive_all h path c).0.state) where
    on_op-keeps :
        (o : Op) (i : Info) (w : World (Link R W))
        → P w.state.writing
        → P (on_op texts (some rh) (some h) o i w).0.state.writing
    on_op-keeps unset i w p = p
    on_op-keeps copy_to_client i w p =
        after_send-keeps w (send rh i (record { sent = []; room = w.state.room }) w.state.reading) p
    on_op-keeps copy_from_client i w p =
        let c : Conn W = record {
          stream = w.state.stream;
          replies = [];
          state = w.state.writing;
        } in
        after_receive-keeps w (receive_all h i.path c) (receives i.path c p)

    on_info-keeps :
        (b : Bool) (i : Info) (w : World (Link R W))
        → P w.state.writing
        → P (on_info texts (some rh) (some h) (λ v. (v, none)) b i w).0.state.writing
    on_info-keeps true i w p = on_op-keeps i.op i w p
    on_info-keeps false i w p = p

module _ {D X K C : Type 0} (host : Host (Link ℕ (State D)) X K C) (texts : Texts) (os : Os D)
    (disk : Disk) (server : RequestServer (Link ℕ (State D))) (r : Bool) (p : Bytes)
    (ns : List Bytes) where
  abbrev pub scp_handler : Handler (Link ℕ (State D))
  unfolding scp_middleware file_system_reader with_middleware
  scp_handler = with_middleware (
      scp_middleware texts (some (file_system_reader disk (render r (p ∷ ns))))
        (some (new_file_system_handler os (render r (p ∷ ns))))
      ∷ [])

  scp_handler-IsConfined :
      (s : Session) (w : World (Link ℕ (State D)))
      → All IsName (p ∷ ns)
      → IsConfined os r p ns w.state.writing
      → IsConfined os r p ns (scp_handler s w).0.state.writing
  unfolding scp_middleware with_middleware scp_handler
  scp_handler-IsConfined s w names c =
      on_info-keeps texts (file_system_reader disk (render r (p ∷ ns)))
        (new_file_system_handler os (render r (p ∷ ns))) (IsConfined os r p ns)
        (copy_from_client-still-IsConfined os r p ns names) (get_info s.command).ok
        (get_info s.command) w c

  -- The handler of the server, where `NewServer` returns one.
  handler_set :
      (s : Server (Link ℕ (State D)) X K) (d d' : X)
      → SetsSigners host
      → scp_server host texts os disk server (render r (p ∷ ns)) d ≡ fine s d'
      → s.handler ≡ some scp_handler
  unfolding scp_server with_middleware_option
  handler_set s d d' sets f =
      let (key_file, e) = with_host_key_path host (codes ".ssh/id_ed25519") d in
      subst (IfFine host (λ t. t.handler ≡ some scp_handler)) f (
        new_server-IfFine host sets (λ t. t.handler ≡ some scp_handler) (λ t ks q. q)
          (with_address (codes "localhost:23235")
            ∷ key_file
            ∷ with_subsystem (codes "sftp") (sftp_subsystem server (render r (p ∷ ns)))
            ∷ [])
          (with_middleware_option (
            scp_middleware texts (some (file_system_reader disk (render r (p ∷ ns))))
              (some (new_file_system_handler os (render r (p ∷ ns))))
            ∷ []))
          e (λ t x. refl))

  -- The server of the example scp, if `NewServer` returns it, has a handler, and whatever command a session gives and
  -- whatever its client sends: every path that the file system handler has handed to the operating system to write is
  -- its root or the root with names behind it, if that held before the session. The root is a cleaned path of one or
  -- more names, and `HostKeyPEM` sets nothing but signers.
  pub scp_server-IsConfined :
      (s : Server (Link ℕ (State D)) X K) (d d' : X) (v : Session) (w : World (Link ℕ (State D)))
      → SetsSigners host
      → All IsName (p ∷ ns)
      → scp_server host texts os disk server (render r (p ∷ ns)) d ≡ fine s d'
      → IsConfined os r p ns w.state.writing
      → (h : Handler (Link ℕ (State D))) × (s.handler ≡ some h)
        × IsConfined os r p ns (h v w).0.state.writing
  scp_server-IsConfined s d d' v w sets names f c =
      (scp_handler, handler_set s d d' sets f, scp_handler-IsConfined v w names c)
