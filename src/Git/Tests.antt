-- ===== src/Git/Tests.antt =====
-- The git middleware at concrete inputs.
use wish.Base.{
  All, ℕ, suc, Bytes, bytes_eq, has_prefix, trim_prefix, codes, List, [], ◌∷◌, ◌++◌, false, none,
  length, count_byte, ltb, ◌≡◌, refl, arith, inl, inr,
}
use wish.FilePath.{slash, clean, clean_parts, clean_part, split_slash}
use wish.Session.{Session, World, stdout, emit, Handler}
use wish.Git.PktLine.{IsHexDigit, pkt_line, hex_value, pkt_line_sized}
use wish.Git.{
  trim_slash, read_only_access, not_authed, stat_found, head_found, branch, Host, State, repo_of,
  is_receive, is_upload, can_write, git_middleware,
}
use wish.Git.Calls.{Since, Granted}
use wish.Git.Access.{answered, asked, level_of, git-Lacking, git-Granted}

-- Everybody may read, everything exists, and every call succeeds.
abbrev pub reading : Host ℕ
reading = record {
  auth_repo = λ r k d. (suc d, read_only_access);
  push = λ r k d. d;
  fetch = λ r k d. d;
  stat = λ p d. stat_found;
  mkdir_all = λ p d. (d, none);
  plain_init = λ p d. (d, none);
  plain_open = λ p d. none;
  branches = λ p d. none;
  next = λ p d. branch (codes "main");
  head = λ p d. head_found;
  run = λ p a d. record { disk = d; output = codes "ok"; failed = none };
  log_text = λ m e. m;
}

abbrev pub asking : List Bytes → Session
asking command = record {
  user = codes "u";
  remote_addr = codes "10.0.0.1:22";
  command = command;
  public_key = none;
  pty = none;
  client_version = [];
}

abbrev pub idle : World (State ℕ)
idle = record { events = []; now = 0; state = record { disk = 0; calls = [] } }

abbrev hello : Handler (State ℕ)
hello s = emit (stdout (codes "hello"))

abbrev repo_arg : Bytes
repo_arg = codes "/team/app.git"

abbrev pushing : Session
pushing = asking (codes "git-receive-pack" ∷ repo_arg ∷ [])

abbrev fetching : Session
fetching = asking (codes "git-upload-pack" ∷ repo_arg ∷ [])

shallow : ltb 1 (count_byte slash (repo_of repo_arg)) ≡ false
unfolding repo_of trim_slash trim_prefix has_prefix clean clean_parts clean_part split_slash
    bytes_eq count_byte
shallow = refl

git-Lacking_example : git_middleware reading (codes "/repos") hello pushing idle ≡ (
  answered (asked reading (codes "/repos") hello pushing idle (repo_of repo_arg)) not_authed,
  none,
)
unfolding is_receive can_write bytes_eq
git-Lacking_example =
    git-Lacking reading (codes "/repos") hello pushing idle (codes "git-receive-pack") repo_arg refl
      shallow (inl (refl, refl))

git-Granted_example :
    Since
      (Granted
        (codes "/repos")
        (codes "git-upload-pack")
        (repo_of repo_arg)
        (level_of reading (codes "/repos") hello fetching idle (repo_of repo_arg)))
      (asked reading (codes "/repos") hello fetching idle (repo_of repo_arg))
      (git_middleware reading (codes "/repos") hello fetching idle).0
unfolding is_upload bytes_eq
git-Granted_example =
    git-Granted reading (codes "/repos") hello fetching idle (codes "git-upload-pack") repo_arg refl
      shallow (inr refl)

pkt_line_sized_example :
    (size : Bytes) × (pkt_line (codes "invalid repo") ≡ size ++ codes "invalid repo" ++ codes "\n")
    × (length size ≡ 4)
    × All IsHexDigit size
    × (hex_value size 0 ≡ length (pkt_line (codes "invalid repo")))
pkt_line_sized_example = pkt_line_sized (codes "invalid repo") (omega arith)
