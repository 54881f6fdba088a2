-- ===== src/Scp/FileSystem/Tree.antt =====
-- A tree that is sent to the file system handler.
use wish.Base.{ℕ, ◌+◌, Bytes, List, [], ◌∷◌, Bool, false, ◌≡◌, All, replicate}
use wish.FilePath.{IsName, render}
use wish.FilePath.Laws.{clean-render}
use wish.Scp.Entry.{Entries}
use wish.Scp.Entry.Encode.{encode_entries}
use wish.Scp.Receive.{finished, copy_from_client, Conn}
use wish.Scp.RoundTrip.{AllSendable, unpack_all, acks_all}
use wish.Scp.RoundTrip.Received.{copy_from_client-encode_entries}
use wish.Scp.FileSystem.{Os, State, file_system_handler, new_file_system_handler}
use wish.Scp.FileSystem.Stores.{Works, file_system_stores, Below-Accepts}

abbrev pub sending : {S : Type 0} → Entries → List ℕ → S → Conn S
sending es cuts s = record {
  stream = record { rest = encode_entries es; cuts = cuts; broken = false };
  replies = [];
  state = s;
}

-- The file system handler implements its specification: over a disk where nothing fails, a client that
-- sends the encoding of a tree of entries that can be sent, cut into reads in any way, is received to
-- the end at a cleaned path, and to the disk has been done what `unpack_all` says, entry by entry: each
-- directory made, each file opened, filled with its contents and closed, and its times set if both are
-- known. The root is a cleaned path of one or more names.
pub copy_from_client-unpack_all :
    {D : Type 0} (os : Os D) (works : Works os) (r : Bool) (p : Bytes) (ns : List Bytes)
    (names : All IsName (p ∷ ns)) (es : Entries) (r' : Bool) (ms : List Bytes) (cuts : List ℕ)
    (s : State D)
    → All IsName ms
    → AllSendable es
    → let x =
        copy_from_client
          (new_file_system_handler os (render r (p ∷ ns)))
          (render r' ms)
          (sending es cuts s) in
      (x.1 ≡ finished)
      × (x.0.state
          ≡ unpack_all
              (file_system_stores os works
                (render r (p ∷ ns))
                (Below-Accepts os works r p ns names))
              es
              (render r' ms)
              s)
      × (x.0.replies ≡ replicate (acks_all es + 2) 0)
copy_from_client-unpack_all os works r p ns names es r' ms cuts s h ok =
    rw (clean-render r (p ∷ ns) names) (
      copy_from_client-encode_entries (file_system_handler os (render r (p ∷ ns)))
        (file_system_stores os works (render r (p ∷ ns)) (Below-Accepts os works r p ns names)) es
        r' ms cuts s h ok)
