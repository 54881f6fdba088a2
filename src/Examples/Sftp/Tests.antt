-- ===== src/Examples/Sftp/Tests.antt =====
-- The handler of sftp at concrete inputs: two disks that agree on "/srv".
use wish.Base.{
  ℕ, Bytes, codes, [], ◌∷◌, true, false, bytes_eq, has_byte, has_prefix, has_prefix-append, ap, ◌∙◌,
  if◌then◌else◌, length, ◌≡◌, refl,
}
use wish.FilePath.{IsName, slashed}
use wish.Scp.FileSystem.Prefixed.{Below}
use wish.Examples.Sftp.{Read, Disk, got, not_read, Request, list_method, file_read, file_list}
use wish.Examples.Sftp.Confined.{Agree, file_read-Agree}

-- Every path in "/srv" is a file and a directory of two entries; all other paths give the text.
abbrev only_srv : {A : Type 0} → A → Bytes → Bytes → Read A
unfolding has_prefix
only_srv a outside q = if has_prefix q (codes "/srv") then got a else not_read outside

abbrev echo : Bytes → Disk Bytes ℕ Bytes
echo outside = record {
  open_file = λ q f m. only_srv q outside q;
  read_dir = λ q. only_srv (codes "a" ∷ q ∷ []) outside q;
  entry_info = λ e. got (length e);
  stat = λ q. only_srv (length q) outside q;
}

srv_only :
    {A : Type 0} (a : A) (o o' q : Bytes)
    → Below true (codes "srv" ∷ []) q
    → only_srv a o q ≡ only_srv a o' q
unfolding only_srv
srv_only a o o' q (ms, e, k) =
    let h : has_prefix q (codes "/srv") ≡ true =
      ap (λ p. has_prefix p (codes "/srv")) e ∙ has_prefix-append (codes "/srv") (slashed ms) in
    rw h refl

echo-Agree : Agree true (codes "srv" ∷ []) (echo (codes "no")) (echo (codes "nothing"))
echo-Agree = record {
  opened = λ q f m k. srv_only q (codes "no") (codes "nothing") q k;
  read = λ q k. srv_only (codes "a" ∷ q ∷ []) (codes "no") (codes "nothing") q k;
  info = λ e. refl;
  stat = λ q k. srv_only (length q) (codes "no") (codes "nothing") q k;
}

srv_name : IsName (codes "srv")
unfolding bytes_eq has_byte
srv_name = record { nonempty = refl; not_dot = refl; not_dot_dot = refl; no_slash = refl }

abbrev asking : Request
asking = record {
  method = list_method;
  filepath = codes "/srv";
  pflags = record {
    reads = true;
    writes = false;
    append = false;
    creat = false;
    excl = false;
    trunc = false;
  };
}

file_read-Agree_example :
    (file_read (echo (codes "no")) (codes "/srv") asking
      ≡ file_read (echo (codes "nothing")) (codes "/srv") asking)
    × (file_list (echo (codes "no")) (codes "/srv") asking
        ≡ file_list (echo (codes "nothing")) (codes "/srv") asking)
file_read-Agree_example =
    file_read-Agree true (codes "srv" ∷ []) (echo (codes "no")) (echo (codes "nothing")) echo-Agree
      asking (codes "srv" ∷ []) (srv_name, tt) (srv_name, tt) refl
