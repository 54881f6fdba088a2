-- ===== src/Scp/RoundTrip/Copied.antt =====
-- A tree that one handler holds and that another one receives.
use wish.Base.{
  Bool, false, ◌++◌, ℕ, ◌+◌, ◌≤◌, Bytes, List, [], ◌≡◌, ◌∙◌, ap, sym, All, replicate, length, subst,
}
use wish.FilePath.{IsName, render}
use wish.Scp.Entry.{Entries, Writer}
use wish.Scp.Entry.Encode.{encode_entries, AllReadable}
use wish.Scp.Info.{Info}
use wish.Scp.Send.{CopyToClientHandler, copy_to_client}
use wish.Scp.Send.Rebuilt.{Placed}
use wish.Scp.Send.Whole.{Holds, copy_to_client-encode_entries}
use wish.Scp.Receive.{CopyFromClientHandler, Conn, finished, copy_from_client}
use wish.Scp.Receive.Lines.{Stores}
use wish.Scp.RoundTrip.{AllSendable, unpack_all, acks_all}
use wish.Scp.RoundTrip.Received.{copy_from_client-encode_entries}

-- A connection whose client sends the text, cut into reads in some way.
abbrev pub from_text : {T : Type 0} → Bytes → List ℕ → T → Conn T
from_text text cuts t = record {
  stream = record { rest = text; cuts = cuts; broken = false };
  replies = [];
  state = t;
}

-- Received to the end, with the tree stored.
abbrev pub Received :
    {T : Type 0} {g : CopyFromClientHandler T}
    → Stores g
    → Entries
    → Bytes
    → T
    → List ℕ
    → Bytes
    → Type 0
Received {T} {g} store es path t cuts text =
    let x = copy_from_client g path (from_text text cuts t) in
    (x.1 ≡ finished)
    × (x.0.state ≡ unpack_all store es path t)
    × (x.0.replies ≡ replicate (acks_all es + 2) 0)

-- What `copyToClient` sends for a recursive request is, sent back in any portions, received by
-- `copyFromClient` to the end: the handler there has been given the very tree that the first handler holds,
-- with names, modes, times and contents. The tree lies in a directory at a cleaned path, each entry has the
-- path of its directory with its own name behind it, the name of no directory is a prefix of that of a later
-- one beside it, its entries can be sent, no reader fails, the session has taken nothing yet and takes the
-- whole encoding; and the second handler reads every file to its end and reports no error.
pub copied_back :
    {S T : Type 0} (h : CopyToClientHandler S) (g : CopyFromClientHandler T) (store : Stores g)
    (info : Info) (m : Bytes) (r : Bool) (ns : List Bytes) (es : Entries) (w : Writer) (s : S)
    (r' : Bool) (ms : List Bytes) (cuts : List ℕ) (t : T)
    → Holds h info m es
    → All IsName ns
    → Placed r ns es
    → AllSendable es
    → AllReadable es
    → length (encode_entries es) ≤ w.room
    → w.sent ≡ []
    → All IsName ms
    → Received store es (render r' ms) t cuts (copy_to_client h info w s).1.sent
copied_back h g store info m r ns es w s r' ms cuts t k names placed ok a l e names' =
    let (p, q) = copy_to_client-encode_entries h info m r ns es w s k names placed a l in
    subst (Received store es (render r' ms) t cuts)
      (sym (ap (λ v. v.sent) p ∙ ap (λ b. b ++ encode_entries es) e))
      (copy_from_client-encode_entries g store es r' ms cuts t names' ok)
