-- ===== src/Scp/Info.antt =====
-- scp/scp.go: `Op`, `Info` and `GetInfo`, the reading of the command line `scp -r -t path`.
pub mod Flags
use wish.Base.{Bytes, codes, List, [], ◌∷◌, Bool, true, false, bytes_eq, if◌then◌else◌}

-- `unset` is the zero byte that a fresh `Info` holds.
pub data Op : Type 0 where
  unset copy_to_client copy_from_client : Op

pub record Info : Type 0 where
  pub ok : Bool
  pub recursive : Bool
  pub path : Bytes
  pub op : Op

abbrev pub no_info : Info
no_info = record { ok = false; recursive = false; path = []; op = unset }

abbrev pub flag_r : Bytes
flag_r = codes "-r"

abbrev pub flag_f : Bytes
flag_f = codes "-f"

abbrev pub flag_t : Bytes
flag_t = codes "-t"

abbrev pub scp_name : Bytes
scp_name = codes "scp"

-- `-f` or `-t` with what follows it: the last argument of the command ends the loop at once.
abbrev pub direction : Op → List Bytes → Info → (Info → Info) → Info
direction o [] info rest = info
direction o (p ∷ ps) info rest = rest (record info { op = o; path = p })

-- The loop over `cmd[i:]`. It does not skip the path behind a flag, so a path "-r" is read as one.
unfoldable pub get_info_loop : List Bytes → Info → Info
unfolding bytes_eq
get_info_loop [] info = record info { ok = true }
get_info_loop (p ∷ ps) info =
    if bytes_eq p flag_r
    then get_info_loop ps (record info { recursive = true })
    else if bytes_eq p flag_f
    then direction copy_to_client ps info (get_info_loop ps)
    else if bytes_eq p flag_t
    then direction copy_from_client ps info (get_info_loop ps)
    else get_info_loop ps info

unfoldable pub get_info : List Bytes → Info
unfolding get_info_loop
get_info [] = no_info
get_info (name ∷ args) =
    if bytes_eq name scp_name then get_info_loop (name ∷ args) no_info else no_info
