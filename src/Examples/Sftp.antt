-- ===== src/Examples/Sftp.antt =====
-- examples/scp/main.go: the handler of the subsystem sftp, which reads and lists what is below a
-- directory. The calls of the package os are the record `Disk`; a request is that of the package sftp.
pub mod Paging
pub mod Confined
pub mod Tests
use wish.Base.{
  ℕ, Bytes, codes, List, [], ◌∷◌, ◌++◌, Bool, true, false, ◌&&◌, ltb, leb, length, take, drop,
  if◌then◌else◌,
}
use wish.FilePath.{join}

-- A value, or an error.
pub data Read (A : Type 0) : Type 0 where
  got : A → Read A
  not_read : Bytes → Read A

abbrev pub and_read : {A B : Type 0} → (A → Read B) → Read A → Read B
and_read k (got a) = k a
and_read k (not_read e) = not_read e

module _ {A : Type 0} where
  -- `ListAt`, with a place for so many entries: what is copied there, and whether the error is EOF.
  unfoldable pub list_at : List A → (place offset : ℕ) → List A × Bool
  list_at l place offset =
      if leb (length l) offset
      then ([], true)
      else let page = take place (drop offset l) in (page, ltb (length page) place)

pub data OpenFlag : Type 0 where
  o_append o_create o_excl o_trunc o_rdwr o_rdonly o_wronly : OpenFlag

pub record Pflags : Type 0 where
  pub reads : Bool
  pub writes : Bool
  pub append : Bool
  pub creat : Bool
  pub excl : Bool
  pub trunc : Bool

pub data Method : Type 0 where
  list_method stat_method : Method
  other_method : Bytes → Method

pub record Request : Type 0 where
  pub method : Method
  pub filepath : Bytes
  pub pflags : Pflags

-- `H` is an open file, `I` what `Stat` and `Info` give, `E` an entry of a directory.
pub record Disk (H I E : Type 0) : Type 0 where
  pub open_file : Bytes → List OpenFlag → ℕ → Read H
  pub read_dir : Bytes → Read (List E)
  pub entry_info : E → Read I
  pub stat : Bytes → Read I

abbrev pub flag_if : Bool → OpenFlag → List OpenFlag
flag_if true f = f ∷ []
flag_if false f = []

abbrev pub access_flags : (reads writes : Bool) → List OpenFlag
access_flags true true = o_rdwr ∷ []
access_flags true false = o_rdonly ∷ []
access_flags false true = o_wronly ∷ []
access_flags false false = []

-- The flags that are put together.
unfoldable pub open_flags : Pflags → List OpenFlag
open_flags p =
    flag_if p.append o_append
    ++ flag_if p.creat o_create
    ++ flag_if p.excl o_excl
    ++ flag_if p.trunc o_trunc
    ++ access_flags p.reads p.writes

module _ {H I E : Type 0} (disk : Disk H I E) (root : Bytes) where
  -- `Fileread`
  unfoldable pub file_read : Request → Read H
  unfolding open_flags join
  file_read r = disk.open_file (join root r.filepath) (open_flags r.pflags) 384

  -- The loop over the entries; the first error ends it.
  unfoldable pub infos : List E → Read (List I)
  infos [] = got []
  infos (e ∷ es) =
      let rest = infos es in and_read (λ i. and_read (λ is. got (i ∷ is)) rest) (disk.entry_info e)

  abbrev pub listed : Read (List E) → Read (List I)
  listed (got es) = infos es
  listed (not_read e) = not_read (codes "sftp: " ++ e)

  -- `Filelist`
  abbrev pub file_list_as : Method → Bytes → Read (List I)
  file_list_as list_method path = listed (disk.read_dir path)
  file_list_as stat_method path = and_read (λ i. got (i ∷ [])) (disk.stat path)
  file_list_as (other_method m) path = not_read (codes "unsupported")

  unfoldable pub file_list : Request → Read (List I)
  unfolding infos join
  file_list r = file_list_as r.method (join root r.filepath)
