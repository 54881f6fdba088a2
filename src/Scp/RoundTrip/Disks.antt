-- ===== src/Scp/RoundTrip/Disks.antt =====
-- A tree that is copied from one disk to another.
use wish.Base.{ℕ, ◌≤◌, Bytes, List, [], ◌∷◌, ◌++◌, Bool, true, false, length, ◌≡◌, All, All-append}
use wish.FilePath.{IsName, render}
use wish.Scp.Entry.{Entries, Writer}
use wish.Scp.Entry.Encode.{encode_entries}
use wish.Scp.Info.{Info}
use wish.Scp.Send.{copy_to_client}
use wish.Scp.FileSystem.{Os, State, file_system_handler}
use wish.Scp.FileSystem.Stores.{Works, file_system_stores, Below-Accepts}
use wish.Scp.FileSystem.Reads.{Disk}
use wish.Scp.Readers.{file_system_reader}
use wish.Scp.Readers.Kept.{Keeps, Keeps-Holds, Stored-AllReadable}
use wish.Scp.RoundTrip.{AllSendable}
use wish.Scp.RoundTrip.Copied.{Received, copied_back}

-- A client that asks the file system handler over one disk for a directory or a file, recursively,
-- and sends what it is sent, in any portions, to the file system handler over another disk: the
-- second disk has had done to it what `unpack_all` says of the very tree that the first disk keeps,
-- in its root. The first root is an absolute cleaned path of one or more names, the second a
-- cleaned path of one or more names, and so is the path that is sent to it, of any number of names;
-- the client asks for a path of names relative to the first root; the name of no directory is a
-- prefix of that of a later one beside it; the entries can be sent; nothing fails on the second
-- disk; and the session has taken nothing yet and takes the whole encoding.
pub disk_to_disk :
    {D : Type 0} (disk : Disk) (p : Bytes) (ns : List Bytes) (names : All IsName (p ∷ ns))
    (os : Os D) (works : Works os) (r' : Bool) (p' : Bytes) (ns' : List Bytes)
    (names' : All IsName (p' ∷ ns')) (info : Info) (l : Bytes) (ls ks : List Bytes) (es : Entries)
    (w : Writer) (n : ℕ) (rooted : Bool) (ms : List Bytes) (cuts : List ℕ) (t : State D)
    → info.recursive ≡ true
    → info.path ≡ render false (l ∷ ls)
    → Keeps disk p ns names l ls ks es
    → AllSendable es
    → length (encode_entries es) ≤ w.room
    → w.sent ≡ []
    → All IsName ms
    → Received
        (file_system_stores os works
          (render r' (p' ∷ ns'))
          (Below-Accepts os works r' p' ns' names'))
        es
        (render rooted ms)
        t
        cuts
        (copy_to_client (file_system_reader disk (render true (p ∷ ns))) info w n).1.sent
disk_to_disk disk p ns names os works r' p' ns' names' info l ls ks es w n rooted ms cuts t rec
      asked k ok room e h =
    copied_back (file_system_reader disk (render true (p ∷ ns)))
      (file_system_handler os (render r' (p' ∷ ns')))
      (file_system_stores os works (render r' (p' ∷ ns')) (Below-Accepts os works r' p' ns' names'))
      info (render false (l ∷ ls)) true ((p ∷ ns) ++ ks) es w n rooted ms cuts t
      (Keeps-Holds disk p ns names info l ls ks es rec asked k)
      (All-append IsName (p ∷ ns) ks names k.named.2) k.placed ok
      (Stored-AllReadable disk es k.stored) room e h
