-- ===== src/Scp/Dispatch/Sessions.antt =====
-- Whole sessions: a tree that a client uploads, and one that it downloads.
use wish.Base.{
  ℕ, ◌+◌, ◌≤◌, Bytes, List, [], ◌∷◌, ◌++◌, Bool, true, false, Option, none, some, bytes_eq, length,
  replicate, All, ◌≡◌, ◌≢◌, refl, sym, ap, ◌∙◌, subst,
}
use wish.FilePath.{IsName, render}
use wish.Session.{Session, World, Ran, Handler, stdout}
use wish.Scp.Info.{
  Op, unset, copy_to_client as sending, copy_from_client as receiving, Info, get_info, flag_r,
  scp_name,
}
use wish.Scp.Info.Flags.{Other, has_r, flag_of, get_info-flags}
use wish.Scp.Entry.{Entries, Writer}
use wish.Scp.Entry.Encode.{encode_entries, AllReadable, push}
use wish.Scp.Send.{CopyToClientHandler, SendError, copy_to_client}
use wish.Scp.Send.Rebuilt.{Placed}
use wish.Scp.Send.Whole.{Holds, copy_to_client-encode_entries}
use wish.Scp.Receive.{CopyFromClientHandler, Conn, Result, finished, copy_from_client}
use wish.Scp.Receive.Lines.{Stores}
use wish.Scp.RoundTrip.{AllSendable, unpack_all, acks_all}
use wish.Scp.RoundTrip.Received.{copy_from_client-encode_entries}
use wish.Scp.Dispatch.{Link, Texts, on_info, on_op, after_send, after_receive, scp_middleware}

-- The command `scp` with some flags, then a direction and a path.
pub record Asks (s : Session) (o : Op) (xs : List Bytes) (p : Bytes) : Type 0 where
  pub command : s.command ≡ scp_name ∷ xs ++ flag_of o ∷ p ∷ []
  pub flags : All Other xs
  pub no_flag : Other p
  pub not_r : bytes_eq p flag_r ≡ false

abbrev pub info_of : Op → List Bytes → Bytes → Info
info_of o xs p = record { ok = true; recursive = has_r xs; path = p; op = o }

module _ {R W : Type 0} (texts : Texts) (rh : Option (CopyToClientHandler R))
    (wh : Option (CopyFromClientHandler W)) (sh : Handler (Link R W)) where
  asked-on_op :
      (s : Session) (o : Op) (xs : List Bytes) (p : Bytes) (w : World (Link R W))
      → o ≢ unset
      → Asks s o xs p
      → scp_middleware texts rh wh sh s w ≡ on_op texts rh wh o (info_of o xs p) w
  unfolding scp_middleware
  asked-on_op s o xs p w n a =
      ap (λ i. on_info texts rh wh (sh s) i.ok i w)
        (ap get_info a.command ∙ get_info-flags o xs p n a.flags a.no_flag a.not_r)

module _ {R W : Type 0} (texts : Texts) (rh : Option (CopyToClientHandler R))
    (h : CopyFromClientHandler W) (store : Stores h) (sh : Handler (Link R W)) where
  abbrev pub Uploaded : Entries → Bytes → World (Link R W) → Ran (Link R W) → Type 0
  Uploaded es path w x =
      (x.1 ≡ none)
      × (x.0.events ≡ w.events ++ stdout (replicate (acks_all es + 2) 0) ∷ [])
      × (x.0.state.writing ≡ unpack_all store es path w.state.writing)

  after_receive-Uploaded :
      (es : Entries) (path : Bytes) (w : World (Link R W)) (x : Conn W × Result)
      → x.1 ≡ finished
      → x.0.state ≡ unpack_all store es path w.state.writing
      → x.0.replies ≡ replicate (acks_all es + 2) 0
      → Uploaded es path w (after_receive texts w x)
  after_receive-Uploaded es path w (c, r) e f g =
      subst (λ q. Uploaded es path w (after_receive texts w (c, q))) (sym e)
        (refl, ap (λ b. w.events ++ stdout b ∷ []) g, f)

  -- A session of the command `scp` with flags, then "-t" and a cleaned path, in which the client sends the
  -- encoding of a tree that can be sent, cut into reads in any way: it ends without an error and without the next
  -- handler, the handler has been given the tree, and the client has been sent the acknowledgements and nothing else.
  -- The path is none of the three flags, and the handler reads every file to its end and reports no error.
  pub scp_middleware_uploads :
      (s : Session) (xs : List Bytes) (r : Bool) (ns : List Bytes) (es : Entries) (cuts : List ℕ)
      (w : World (Link R W))
      → Asks s receiving xs (render r ns)
      → w.state.stream ≡ record { rest = encode_entries es; cuts = cuts; broken = false }
      → All IsName ns
      → AllSendable es
      → Uploaded es (render r ns) w (scp_middleware texts rh (some h) sh s w)
  scp_middleware_uploads s xs r ns es cuts w a e names ok =
      let (x, y, z) =
        copy_from_client-encode_entries h store es r ns cuts w.state.writing names ok in
      let conn : Conn W = record {
        stream = record { rest = encode_entries es; cuts = cuts; broken = false };
        replies = [];
        state = w.state.writing;
      } in
      subst (Uploaded es (render r ns) w)
        (sym (asked-on_op texts rh (some h) sh s receiving xs (render r ns) w (λ q. cc q) a))
        (subst
          (λ t. Uploaded es (render r ns) w (
            after_receive texts w (
              copy_from_client h (render r ns)
                (record { stream = t; replies = []; state = w.state.writing }))))
          (sym e)
          (after_receive-Uploaded es (render r ns) w (copy_from_client h (render r ns) conn) x y z))

module _ {R W : Type 0} (texts : Texts) (h : CopyToClientHandler R)
    (wh : Option (CopyFromClientHandler W)) (sh : Handler (Link R W)) where
  abbrev pub Downloaded : Entries → World (Link R W) → Ran (Link R W) → Type 0
  Downloaded es w x = (x.1 ≡ none) × (x.0.events ≡ w.events ++ stdout (encode_entries es) ∷ [])

  after_send-Downloaded :
      (es : Entries) (w : World (Link R W)) (x : R × Writer × Option SendError)
      → x.1 ≡ push (encode_entries es) (record { sent = []; room = w.state.room })
      → x.2 ≡ none
      → Downloaded es w (after_send texts w x)
  after_send-Downloaded es w (s, out, e) p q =
      subst (λ f. Downloaded es w (after_send texts w (s, out, f))) (sym q)
        (refl, ap (λ v. w.events ++ stdout v.sent ∷ []) p)

  -- A session of the command `scp` with flags, "-r" among them, then "-f" and a path, for a tree that the
  -- handler holds: it ends without an error and without the next handler, and the client has been sent the
  -- encoding of the tree and nothing else. The path is none of the three flags; the tree lies in a directory at a cleaned
  -- path, each entry has the path of its directory with its own name behind it, the name of no directory is
  -- a prefix of that of a later one beside it; no reader fails; and the session takes that many bytes.
  pub scp_middleware_downloads :
      (s : Session) (xs : List Bytes) (p m : Bytes) (r : Bool) (ns : List Bytes) (es : Entries)
      (w : World (Link R W))
      → Asks s sending xs p
      → Holds h (info_of sending xs p) m es
      → All IsName ns
      → Placed r ns es
      → AllReadable es
      → length (encode_entries es) ≤ w.state.room
      → Downloaded es w (scp_middleware texts (some h) wh sh s w)
  scp_middleware_downloads s xs p m r ns es w a k names placed readable room =
      let out : Writer = record { sent = []; room = w.state.room } in
      let (x, y) =
        copy_to_client-encode_entries h (info_of sending xs p) m r ns es out w.state.reading k names
          placed readable room in
      subst (Downloaded es w)
        (sym (asked-on_op texts (some h) wh sh s sending xs p w (λ q. cc q) a))
        (after_send-Downloaded es w (copy_to_client h (info_of sending xs p) out w.state.reading) x
          y)
