-- ===== src/Scp/RoundTrip/Tests.antt =====
-- Copying a concrete tree: a directory with a file in it, and a file beside it.
use wish.Base.{
  ℕ, ◌≤◌, Bytes, codes, [], ◌∷◌, ◌++◌, map, true, false, none, has_byte, has_byte-Lacks, bytes_eq,
  ◌≡◌, refl, arith, inl, if◌then◌else◌, length,
}
use wish.FilePath.{IsName, render}
use wish.Scp.Entry.{
  FileEntry, DirInfo, Entries, file, dir, nil, cons, Writer, is_valid_name, times_line, dir_line,
  file_line,
}
use wish.Scp.Entry.Encode.{encode_entries, encode_file, AllReadable}
use wish.Scp.Info.{Info, copy_to_client as to_client}
use wish.Scp.Stream.{newline}
use wish.Scp.Send.{CopyToClientHandler, Opened, copy_to_client, append_entry, append_in}
use wish.Scp.Send.Kept.{items}
use wish.Scp.Send.Apart.{Clear}
use wish.Scp.Send.Rebuilt.{Placed, append_each, append_each-items}
use wish.Scp.Send.Whole.{visit_of, Holds}
use wish.Scp.Send.Misplaced.{append_entry_misplaced}
use wish.Scp.RoundTrip.Texts.{known}
use wish.Scp.RoundTrip.{SendableFile, SendableDir, AllSendable}
use wish.Scp.RoundTrip.Copied.{Received, copied_back}
use wish.Scp.RoundTrip.Disks.{disk_to_disk}
use wish.Scp.FileSystem.Reads.{Disk, got}
use wish.Scp.FileSystem.Stores.{file_system_stores, Below-Accepts}
use wish.Scp.FileSystem.Tests.{tape, tape_works, blank}
use wish.Scp.Readers.{file_system_reader}
use wish.Scp.Readers.Kept.{Keeps}
use wish.Scp.Memory.{memory_handler, memory_stores}

abbrev file_of : Bytes → Bytes → FileEntry
file_of name path = record {
  name = name;
  filepath = path;
  mode = 420;
  size = 2;
  contents = codes "hi";
  broken = false;
  atime = 0;
  mtime = 0;
}

abbrev dir_of : Bytes → Bytes → DirInfo
dir_of name path = record { name = name; filepath = path; mode = 493; atime = 0; mtime = 0 }

abbrev novel : FileEntry
novel = file_of (codes "novel") (codes "/lib/shelf/novel")

abbrev index : FileEntry
index = file_of (codes "index") (codes "/lib/index")

abbrev shelf : DirInfo
shelf = dir_of (codes "shelf") (codes "/lib/shelf")

abbrev pub books : Entries
books = cons (dir shelf (cons (file novel) nil)) (cons (file index) nil)

abbrev opening : FileEntry → ℕ → Opened ℕ
opening f n = record { state = n; closer = none; entry = f; failed = none }

-- A handler that holds the tree.
abbrev pub library : CopyToClientHandler ℕ
unfolding items bytes_eq
library = record {
  glob = λ p n. (n, (codes "/lib" ∷ [], none));
  walk_dir = λ p n. (map visit_of (items books), none);
  new_dir_entry = λ p n. (n, (shelf, none));
  new_file_entry = λ p n. opening (if bytes_eq p (codes "/lib/index") then index else novel) n;
}

abbrev pub everything : Info
everything = record { ok = true; recursive = true; path = codes "/lib"; op = to_client }

abbrev pub wide : Writer
wide = record { sent = []; room = 200 }

pub library-Holds : Holds library everything (codes "/lib") books
unfolding items bytes_eq
library-Holds = record {
  recursive = refl;
  globbed = λ n. (n, refl);
  walked = λ n. refl;
  given = ((λ n. (n, refl)), ((λ n. (refl, refl)), ((λ n. (refl, refl)), tt)));
}

name_of :
    (n : Bytes)
    → bytes_eq n [] ≡ false
    → bytes_eq n (codes ".") ≡ false
    → bytes_eq n (codes "..") ≡ false
    → has_byte 47 n ≡ false
    → IsName n
name_of n a b c d = record { nonempty = a; not_dot = b; not_dot_dot = c; no_slash = d }

pub lib-IsName : IsName (codes "lib")
unfolding bytes_eq has_byte
lib-IsName = name_of (codes "lib") refl refl refl refl

pub books-Placed : Placed true (codes "lib" ∷ []) books
unfolding Placed Clear bytes_eq has_byte
books-Placed = (
  (
    refl,
    name_of (codes "shelf") refl refl refl refl,
    ((refl, name_of (codes "novel") refl refl refl refl), tt),
  ),
  tt,
  ((refl, name_of (codes "index") refl refl refl refl), tt),
)

file_of-SendableFile :
    (name path : Bytes)
    → is_valid_name name ≡ true
    → has_byte newline name ≡ false
    → SendableFile (file_of name path)
unfolding known
file_of-SendableFile name path a b = record {
  valid = a;
  one_line = has_byte-Lacks newline name b;
  four_digits = omega arith;
  exact = refl;
  int64 = omega arith;
  times_fit = inl refl;
}

shelf-SendableDir : SendableDir shelf
unfolding is_valid_name has_byte bytes_eq known
shelf-SendableDir = record {
  valid = refl;
  one_line = has_byte-Lacks newline (codes "shelf") refl;
  four_digits = omega arith;
  times_fit = inl refl;
}

pub books-AllSendable : AllSendable books
unfolding AllSendable is_valid_name has_byte bytes_eq
books-AllSendable = (
  (
    shelf-SendableDir,
    (file_of-SendableFile (codes "novel") (codes "/lib/shelf/novel") refl refl, tt),
  ),
  (file_of-SendableFile (codes "index") (codes "/lib/index") refl refl, tt),
)

pub books-AllReadable : AllReadable books
unfolding AllReadable
books-AllReadable = ((refl, tt), (refl, tt))

pub books_fit : length (encode_entries books) ≤ wide.room
unfolding encode_entries encode_file times_line dir_line file_line
books_fit = omega arith

append_each-items_example : append_each (items books) nil ≡ books
append_each-items_example =
    append_each-items true (codes "lib" ∷ []) books (lib-IsName, tt) books-Placed

copied_back_example :
    Received memory_stores books
      (render true (codes "lib" ∷ []))
      []
      (1 ∷ 5 ∷ [])
      (copy_to_client library everything wide 0).1.sent
copied_back_example =
    copied_back library memory_handler memory_stores everything (codes "/lib") true
      (codes "lib" ∷ []) books wide 0 true (codes "lib" ∷ []) (1 ∷ 5 ∷ []) [] library-Holds
      (lib-IsName, tt) books-Placed books-AllSendable books-AllReadable books_fit refl
      (lib-IsName, tt)

abbrev shelf_two : DirInfo
shelf_two = dir_of (codes "shelf2") (codes "/lib/shelf2")

abbrev stray : FileEntry
stray = file_of (codes "a") (codes "/lib/shelf2/a")

append_entry_misplaced_example :
    append_entry (file stray) (cons (dir shelf nil) (cons (dir shelf_two nil) nil))
    ≡ cons
        (dir shelf (
          append_in
            (render true (codes "lib" ∷ (codes "shelf" ++ codes "2") ∷ []))
            (file stray)
            nil))
        (cons (dir shelf_two nil) nil)
unfolding bytes_eq has_byte
append_entry_misplaced_example =
    append_entry_misplaced true (codes "lib" ∷ []) (codes "shelf") (codes "2") (codes "a") shelf
      shelf_two nil nil nil (file stray) (lib-IsName, tt)
      (name_of (codes "shelf") refl refl refl refl) (name_of (codes "shelf2") refl refl refl refl)
      (name_of (codes "a") refl refl refl refl) refl refl refl

-- A disk with the directory "/lib/shelf".
abbrev lib_disk : Disk
unfolding items bytes_eq
lib_disk = record {
  glob = λ q. got (q ∷ []);
  rel = λ root q. got (codes "shelf");
  walk_dir = λ q. (map visit_of (items (cons (dir shelf (cons (file novel) nil)) nil)), none);
  stat = λ q. got (
      if bytes_eq q (codes "/lib/shelf")
      then record { name = codes "shelf"; mode = 493; size = 64; mod_time = 0 }
      else record { name = codes "novel"; mode = 420; size = 2; mod_time = 0 });
  contents = λ q. got (codes "hi", false);
}

abbrev one_shelf : Entries
one_shelf = cons (dir shelf (cons (file novel) nil)) nil

lib_disk-Keeps : Keeps lib_disk (codes "lib") [] (lib-IsName, tt) (codes "shelf") [] [] one_shelf
unfolding items bytes_eq has_byte Placed Clear
lib_disk-Keeps = record {
  named = (name_of (codes "shelf") refl refl refl refl, tt, tt);
  globbed = refl;
  relative = refl;
  walked = refl;
  stored = ((64, refl, refl), ((refl, refl, refl, refl), tt));
  placed = (
    (
      refl,
      name_of (codes "shelf") refl refl refl refl,
      ((refl, name_of (codes "novel") refl refl refl refl), tt),
    ),
    tt,
    tt,
  );
}

abbrev shelf_wanted : Info
shelf_wanted = record { ok = true; recursive = true; path = codes "shelf"; op = to_client }

one_shelf-AllSendable : AllSendable one_shelf
unfolding AllSendable is_valid_name has_byte bytes_eq
one_shelf-AllSendable = (
  (
    shelf-SendableDir,
    (file_of-SendableFile (codes "novel") (codes "/lib/shelf/novel") refl refl, tt),
  ),
  tt,
)

one_shelf_fits : length (encode_entries one_shelf) ≤ wide.room
unfolding encode_entries encode_file times_line dir_line file_line
one_shelf_fits = omega arith

disk_to_disk_example :
    Received
      (file_system_stores tape tape_works
        (render false (codes "lib" ∷ []))
        (Below-Accepts tape tape_works false (codes "lib") [] (lib-IsName, tt)))
      one_shelf
      (render false [])
      blank
      (4 ∷ [])
      (copy_to_client
        (file_system_reader lib_disk (render true (codes "lib" ∷ [])))
        shelf_wanted
        wide
        0).1.sent
disk_to_disk_example =
    disk_to_disk lib_disk (codes "lib") [] (lib-IsName, tt) tape tape_works false (codes "lib") []
      (lib-IsName, tt) shelf_wanted (codes "shelf") [] [] one_shelf wide 0 false [] (4 ∷ []) blank
      refl refl lib_disk-Keeps one_shelf-AllSendable one_shelf_fits refl tt
