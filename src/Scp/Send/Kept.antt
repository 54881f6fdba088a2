-- ===== src/Scp/Send/Kept.antt =====
-- `Append` puts in an entry and loses none.
use wish.Base.{
  Bytes, List, [], ◌∷◌, ◌++◌, bytes_eq, has_prefix, ◌≡◌, refl, ap, sym, ◌∙◌, append_assoc,
  Bool-cases, inl, inr,
}
use wish.FilePath.{clean, dir as dir_of}
use wish.Scp.Entry.{FileEntry, DirInfo, Entry, Entries, file, dir, nil, cons}
use wish.Scp.Send.{snoc, path_of, normalize_path, append_in, append_entry}

-- A file, or a directory without its children.
pub data Item : Type 0 where
  a_file : FileEntry → Item
  a_dir : DirInfo → Item

-- All that a list of entries holds, each directory in front of its children.
unfoldable mutual
  pub items_of : Entry → List Item
  items_of (file f) = a_file f ∷ []
  items_of (dir d cs) = a_dir d ∷ items cs

  pub items : Entries → List Item
  items nil = []
  items (cons e es) = items_of e ++ items es

-- `new` is `old` with the items of `e` put in somewhere.
abbrev pub WithItems : Entry → List Item → List Item → Type 0
WithItems e old new =
    (a : List Item) × (b : List Item) × (old ≡ a ++ b) × (new ≡ a ++ (items_of e ++ b))

behind :
    (e : Entry) (front old new : List Item)
    → WithItems e old new
    → WithItems e (front ++ old) (front ++ new)
behind e front old new (a, b, p, q) = (
  front ++ a,
  b,
  ap (λ x. front ++ x) p ∙ sym (append_assoc front a b),
  ap (λ x. front ++ x) q ∙ sym (append_assoc front a (items_of e ++ b)),
)

before :
    (e : Entry) (back old new : List Item)
    → WithItems e old new
    → WithItems e (old ++ back) (new ++ back)
before e back old new (a, b, p, q) = (
  a,
  b ++ back,
  ap (λ x. x ++ back) p ∙ append_assoc a b back,
  ap (λ x. x ++ back) q
      ∙ append_assoc a (items_of e ++ b) back
      ∙ ap (λ x. a ++ x) (append_assoc (items_of e) b back),
)

in_dir :
    (e : Entry) (d : DirInfo) (cs cs' es : Entries)
    → WithItems e (items cs) (items cs')
    → WithItems e (items (cons (dir d cs) es)) (items (cons (dir d cs') es))
unfolding items
in_dir e d cs cs' es h =
    before e (items es) (a_dir d ∷ items cs) (a_dir d ∷ items cs')
      (behind e (a_dir d ∷ []) (items cs) (items cs') h)

snoc-WithItems : (es : Entries) (e : Entry) → WithItems e (items es) (items (snoc es e))
unfolding items snoc
snoc-WithItems nil e = ([], [], refl, refl)
snoc-WithItems (cons c cs) e =
    behind e (items_of c) (items cs) (items (snoc cs e)) (snoc-WithItems cs e)

append_in-WithItems :
    (p : Bytes) (e : Entry) (es : Entries) → WithItems e (items es) (items (append_in p e es))
unfolding append_in items
append_in-WithItems p e nil = ([], [], refl, refl)
append_in-WithItems p e (cons (file f) es) =
    behind e (a_file f ∷ []) (items es) (items (append_in p e es)) (append_in-WithItems p e es)
append_in-WithItems p e (cons (dir d cs) es) = elim (Bool-cases (bytes_eq d.filepath p)) [
  | inl h ↦ rw h (in_dir e d cs (snoc cs e) es (snoc-WithItems cs e))
  | inr h ↦ elim (Bool-cases (has_prefix p (clean d.filepath))) [
    | inl k ↦ rw (h, k) (in_dir e d cs (append_in p e cs) es (append_in-WithItems p e cs))
    | inr k ↦
        rw (h, k)
          (behind e (a_dir d ∷ items cs) (items es) (items (append_in p e es))
            (append_in-WithItems p e es))
  ]
]

-- `Append` puts the entry in at one place of the tree; every file and directory that was there stays,
-- in the same order, whatever the paths are.
pub append_entry-WithItems :
    (e : Entry) (es : Entries) → WithItems e (items es) (items (append_entry e es))
unfolding append_entry
append_entry-WithItems e es = append_in-WithItems (normalize_path (dir_of (path_of e))) e es
