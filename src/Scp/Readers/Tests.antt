-- ===== src/Scp/Readers/Tests.antt =====
-- The handlers of the repository at concrete inputs: a disk with one file.
use wish.Base.{false, true, codes, [], ◌∷◌, ◌≡◌, refl, none, has_byte, bytes_eq, All}
use wish.FilePath.{IsName, render}
use wish.Scp.Entry.{Writer}
use wish.Scp.Info.{Info, copy_to_client as to_client}
use wish.Scp.Send.{copy_to_client}
use wish.Scp.Send.Given.{SentOnly}
use wish.Scp.FileSystem.Reads.{Disk, got}
use wish.Scp.Readers.{new_fs_read_handler, file_system_reader}
use wish.Scp.Readers.Served.{IsServed, copy_to_client_closes, copy_to_client-IsServed}

abbrev pub one_file : Disk
one_file = record {
  glob = λ p. got (p ∷ []);
  rel = λ r p. got (codes "f");
  walk_dir = λ p. ([], none);
  stat = λ p. got (record { name = codes "f"; mode = 420; size = 5; mod_time = 9 });
  contents = λ p. got (codes "hello", false);
}

abbrev wanted : Info
wanted = record { ok = true; recursive = false; path = codes "f"; op = to_client }

abbrev client : Writer
client = record { sent = []; room = 100 }

web_name : All IsName (codes "web" ∷ [])
unfolding bytes_eq has_byte
web_name = (record { nonempty = refl; not_dot = refl; not_dot_dot = refl; no_slash = refl }, tt)

copy_to_client_closes_example :
    ((copy_to_client (new_fs_read_handler one_file) wanted client 4).0 ≡ 4)
    × ((copy_to_client (file_system_reader one_file (codes "/web")) wanted client 4).0 ≡ 4)
copy_to_client_closes_example = copy_to_client_closes one_file (codes "/web") wanted client 4

copy_to_client-IsServed_example :
    SentOnly
      (IsServed one_file true (codes "web") [])
      client
      (copy_to_client
        (file_system_reader one_file (render true (codes "web" ∷ [])))
        wanted
        client
        0).1
copy_to_client-IsServed_example =
    copy_to_client-IsServed one_file true (codes "web") [] web_name wanted client 0
