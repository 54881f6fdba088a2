-- ===== src/Scp/RoundTrip.antt =====
-- Sending and receiving: what `RootEntry.Write` puts on the wire, `copyFromClient` takes apart into
-- the same directories and files, in the same order.
pub mod Texts
pub mod Received
pub mod Copied
pub mod Disks
pub mod Tests
use wish.Base.{
  ℕ, zero, suc, ◌+◌, ◌≤◌, ◌<◌, ◌^◌, Bytes, codes, [], ◌∷◌, ◌++◌, Bool, true, false, Option, none,
  some, if◌then◌else◌, length, All, All-append, Lacks, ◌≡◌, refl, arith, ◌∙◌, Bool-cases, inl, inr,
  subst, ap, ap₂, sym, replicate, append_assoc, append-nil, List, ltb, ◌&&◌, ◌⊎◌,
}
use wish.FilePath.{IsName, join, dir as dir_of, render}
use wish.FilePath.Laws.{join-render_name, dir-render}
use wish.Scp.Entry.{
  FileEntry, DirInfo, Entry, Entries, file, dir, nil, cons, perm, is_valid_name, null_byte,
  times_line, file_line, dir_line,
}
use wish.Scp.Entry.Encode.{encode_entry, encode_entries, encode_file}
use wish.Scp.Stream.{newline}
use wish.Scp.Receive.{
  FileInfo, CopyFromClientHandler, Conn, Locals, at_start, reply, Result, finished, receive, step,
  return, copy_from_client,
}
use wish.Scp.Receive.Steps.{Steps, here, next, Steps-trans, receive-Steps, At, At-reply}
use wish.Scp.Receive.Lines.{Stores, Goes, step_times, step_dir, step_end, step_file}
use wish.Scp.RoundTrip.Texts.{
  known, TimesFit, times_line_text, file_line_text, dir_line_text, is_valid_name-IsName,
  texts-Lacks_file, texts-Lacks_dir, texts-Lacks_times,
}

-- A file that can be sent: its name is one, its mode has four digits, its size is that of its
-- contents, and its times are unknown or have ten digits.
pub record SendableFile (e : FileEntry) : Type 0 where
  pub valid : is_valid_name e.name ≡ true
  pub one_line : Lacks newline e.name
  pub four_digits : 64 ≤ perm e.mode
  pub exact : length e.contents ≡ e.size
  pub int64 : e.size < 2 ^ 63
  pub times_fit : TimesFit e.mtime e.atime

pub record SendableDir (d : DirInfo) : Type 0 where
  pub valid : is_valid_name d.name ≡ true
  pub one_line : Lacks newline d.name
  pub four_digits : 64 ≤ perm d.mode
  pub times_fit : TimesFit d.mtime d.atime

unfoldable mutual
  pub Sendable : Entry → Type 0
  Sendable (file e) = SendableFile e
  Sendable (dir d es) = SendableDir d × AllSendable es

  pub AllSendable : Entries → Type 0
  AllSendable nil = Unit
  AllSendable (cons e es) = Sendable e × AllSendable es

-- A time as the other side knows it.
abbrev pub sent : ℕ → ℕ → ℕ → ℕ
sent m a t = if known m a then t else 0

abbrev pub file_info : Bytes → FileEntry → FileInfo
file_info path e = record {
  name = e.name;
  filepath = join path e.name;
  mode = perm e.mode;
  size = e.size;
  atime = sent e.mtime e.atime e.atime;
  mtime = sent e.mtime e.atime e.mtime;
}

abbrev pub dir_info : Bytes → DirInfo → DirInfo
dir_info path d = record {
  name = d.name;
  filepath = join path d.name;
  mode = perm d.mode;
  atime = sent d.mtime d.atime d.atime;
  mtime = sent d.mtime d.atime d.mtime;
}

abbrev acks_times : ℕ → ℕ → ℕ
acks_times m a = if known m a then 1 else 0

-- The number of replies to an entry.
unfoldable mutual
  pub acks : Entry → ℕ
  acks (file e) = acks_times e.mtime e.atime + 2
  acks (dir d es) = acks_times d.mtime d.atime + 1 + acks_all es + 1

  pub acks_all : Entries → ℕ
  acks_all nil = 0
  acks_all (cons e es) = acks e + acks_all es

module _ {S : Type 0} {h : CopyFromClientHandler S} (store : Stores h) where
  -- What the tree does to the handler's state, entry by entry.
  unfoldable mutual
    pub unpack : Entry → Bytes → S → S
    unpack (file e) path s = store.stored (file_info path e) e.contents s
    unpack (dir d es) path s = unpack_all es (join path d.name) (store.made (dir_info path d) s)

    pub unpack_all : Entries → Bytes → S → S
    unpack_all nil path s = s
    unpack_all (cons e es) path s = unpack_all es path (unpack e path s)
