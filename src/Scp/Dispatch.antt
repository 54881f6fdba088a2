-- ===== src/Scp/Dispatch.antt =====
-- scp/scp.go: `Middleware`. The session's input, how much it still takes, and the states of the two
-- handlers are the application's state; what is sent goes to the world's events.
pub mod Silent
pub mod Sessions
pub mod SessionTests
pub mod Tests
use wish.Base.{ℕ, Bytes, codes, List, [], ◌∷◌, ◌++◌, Bool, true, false, Option, none, some}
use wish.Session.{Session, World, Ran, Action, Handler, Middleware, Event, stdout, fatal}
use wish.Scp.Info.{Op, unset, copy_to_client, copy_from_client, Info, get_info}
use wish.Scp.Entry.{Writer}
use wish.Scp.Stream.{Stream}
use wish.Scp.Receive.{
  CopyFromClientHandler, Conn, Result, finished, out_of_fuel, failure, Failure,
  copy_from_client as receive_all,
}
use wish.Scp.Send.{CopyToClientHandler, SendError, copy_to_client as send}

pub record Link (R W : Type 0) : Type 0 where
  pub stream : Stream
  pub room : ℕ
  pub reading : R
  pub writing : W

-- The texts of the errors. That the fuel runs out never happens.
pub record Texts : Type 0 where
  pub send_text : SendError → Bytes
  pub receive_text : Failure → Bytes

abbrev pub send_error : Texts → Option SendError → Option Bytes
send_error texts none = none
send_error texts (some e) = some (texts.send_text e)

abbrev pub receive_error : Texts → Result → Option Bytes
receive_error texts finished = none
receive_error texts out_of_fuel = none
receive_error texts (failure e) = some (texts.receive_text e)

module _ {R W : Type 0} (texts : Texts) where
  abbrev pub failed_with : Option Bytes → Action (Link R W)
  failed_with none w = (w, none)
  failed_with (some text) w = fatal text w

  abbrev pub after_send : World (Link R W) → R × Writer × Option SendError → Ran (Link R W)
  after_send w (s, out, e) = failed_with (send_error texts e) (record w {
    events = w.events ++ stdout out.sent ∷ [];
    state = record w.state { reading = s; room = out.room };
  })

  abbrev pub after_receive : World (Link R W) → Conn W × Result → Ran (Link R W)
  after_receive w (c, r) = failed_with (receive_error texts r) (record w {
    events = w.events ++ stdout c.replies ∷ [];
    state = record w.state { stream = c.stream; writing = c.state };
  })

  abbrev pub to_client : Option (CopyToClientHandler R) → Info → Action (Link R W)
  to_client none info w = fatal (codes "no handler provided for scp -f") w
  to_client (some h) info w =
      after_send w (send h info (record { sent = []; room = w.state.room }) w.state.reading)

  abbrev pub from_client : Option (CopyFromClientHandler W) → Info → Action (Link R W)
  from_client none info w = fatal (codes "no handler provided for scp -t") w
  from_client (some h) info w = after_receive w (
      receive_all h info.path
        (record { stream = w.state.stream; replies = []; state = w.state.writing }))

  abbrev pub on_op :
      Option (CopyToClientHandler R)
      → Option (CopyFromClientHandler W)
      → Op
      → Info
      → Action (Link R W)
  on_op rh wh copy_to_client info w = to_client rh info w
  on_op rh wh copy_from_client info w = from_client wh info w
  on_op rh wh unset info w = (w, none)

  abbrev pub on_info :
      Option (CopyToClientHandler R)
      → Option (CopyFromClientHandler W)
      → Action (Link R W)
      → Bool
      → Info
      → Action (Link R W)
  on_info rh wh next true info w = on_op rh wh info.op info w
  on_info rh wh next false info w = next w

  unfoldable pub scp_middleware :
      Option (CopyToClientHandler R) → Option (CopyFromClientHandler W) → Middleware (Link R W)
  unfolding get_info fatal send receive_all
  scp_middleware rh wh sh s = on_info rh wh (sh s) (get_info s.command).ok (get_info s.command)
