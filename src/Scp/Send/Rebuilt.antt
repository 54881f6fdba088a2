-- ===== src/Scp/Send/Rebuilt.antt =====
-- `Append`, one entry after the other in the order of a walk, makes the tree that is walked.
use wish.Base.{
  Bytes, List, [], ◌∷◌, ◌++◌, Bool, true, bytes_eq_iff, has_prefix, has_prefix-append, ◌≡◌, refl,
  ◌∙◌, ap, sym, All, All-append, append_assoc, append-nil,
}
use wish.FilePath.{IsName, render, clean, dir as dir_of}
use wish.FilePath.Laws.{clean-render, dir-render}
use wish.Scp.Entry.{DirInfo, Entry, Entries, file, dir, nil, cons}
use wish.Scp.Send.{snoc, path_of, append_in, append_entry}
use wish.Scp.Send.Kept.{Item, a_file, a_dir, items_of, items}
use wish.Scp.Send.Apart.{
  Clear, Beside, Skips, Beside-Skips, Beside-Skips_below, Beside-file, Beside-dir,
  has_prefix-render, has_prefix-parent, append_in-Skips, append_in_last,
}

-- What `copyToClient` makes of what it visits; a directory has no children yet.
abbrev pub as_entry : Item → Entry
as_entry (a_file f) = file f
as_entry (a_dir d) = dir d nil

unfoldable pub append_each : List Item → Entries → Entries
unfolding append_entry
append_each [] es = es
append_each (x ∷ xs) es = append_each xs (append_entry (as_entry x) es)

-- A tree in the directory `render r ns`: each entry has the path of its directory with its own name
-- behind it, and the name of no directory is a prefix of that of a later one beside it.
unfoldable mutual
  pub PlacedEntry : Bool → List Bytes → Entry → Type 0
  PlacedEntry r ns (file f) = (f.filepath ≡ render r (ns ++ f.name ∷ [])) × IsName f.name
  PlacedEntry r ns (dir d cs) =
      (d.filepath ≡ render r (ns ++ d.name ∷ [])) × IsName d.name × Placed r (ns ++ d.name ∷ []) cs

  pub Placed : Bool → List Bytes → Entries → Type 0
  Placed r ns nil = Unit
  Placed r ns (cons (file f) es) = PlacedEntry r ns (file f) × Placed r ns es
  Placed r ns (cons (dir d cs) es) = PlacedEntry r ns (dir d cs) × Clear d.name es × Placed r ns es

unfoldable pub chain : Entries → Entries → Entries
chain nil es = es
chain (cons x xs) es = cons x (chain xs es)

chain-nil : (es : Entries) → chain es nil ≡ es
unfolding chain
chain-nil nil = refl
chain-nil (cons x xs) = ap (cons x) (chain-nil xs)

chain-snoc : (es : Entries) (x : Entry) (xs : Entries) → chain (snoc es x) xs ≡ chain es (cons x xs)
unfolding chain snoc
chain-snoc nil x xs = refl
chain-snoc (cons e es) x xs = ap (cons e) (chain-snoc es x xs)

append_each-append :
    (xs ys : List Item) (es : Entries)
    → append_each (xs ++ ys) es ≡ append_each ys (append_each xs es)
unfolding append_each
append_each-append [] ys es = refl
append_each-append (x ∷ xs) ys es = append_each-append xs ys (append_entry (as_entry x) es)

-- Whatever is appended at or below `render r ns` goes into the hole of `k`.
abbrev Lifts : Bool → List Bytes → (Entries → Entries) → Type 0
Lifts r ns k =
    (ks : List Bytes) (e : Entry) (c : Entries)
    → (render r (ns ++ ks) ≡ render r ns → Skips (render r (ns ++ ks)) c)
    → append_in (render r (ns ++ ks)) e (k c) ≡ k (append_in (render r (ns ++ ks)) e c)

module _ (r : Bool) where
  pub append_entry-parent :
      (ns : List Bytes) (n : Bytes) (e : Entry) (es : Entries)
      → All IsName ns
      → IsName n
      → path_of e ≡ render r (ns ++ n ∷ [])
      → append_entry e es ≡ append_in (render r ns) e es
  unfolding append_entry
  append_entry-parent ns n e es h k p =
      ap (λ q. append_in q e es)
        (ap (λ q. clean (dir_of q)) p ∙ ap clean (dir-render r ns n h k) ∙ clean-render r ns h)

  -- What is put in at the end of a list that lies in the hole.
  put_last :
      (ns : List Bytes) (names : All IsName ns) (k : Entries → Entries) (lifts : Lifts r ns k)
      (n : Bytes) (e : Entry) (later done : Entries)
      → IsName n
      → path_of e ≡ render r (ns ++ n ∷ [])
      → Beside r ns later done
      → append_entry e (k done) ≡ k (snoc done e)
  put_last ns names k lifts n e later done i p b =
      let skips : Skips (render r ns) done = Beside-Skips r ns names later done b in
      append_entry-parent ns n e (k done) names i p
      ∙ (rw append-nil at (lifts [] e done (λ q. rw append-nil skips)))
      ∙ ap k (append_in-Skips (render r ns) e done skips)

  -- The children of a directory that is the last of its list.
  Lifts-dir :
      (ns : List Bytes) (names : All IsName ns) (k : Entries → Entries) (lifts : Lifts r ns k)
      (d : DirInfo) (cs later done : Entries)
      → d.filepath ≡ render r (ns ++ d.name ∷ [])
      → IsName d.name
      → Beside r ns (cons (dir d cs) later) done
      → Lifts r (ns ++ d.name ∷ []) (λ c. k (snoc done (dir d c)))
  Lifts-dir ns names k lifts d cs later done p i b ks e c h =
      let q = render r (ns ++ d.name ∷ ks) in
      let shift = append_assoc ns (d.name ∷ []) ks in
      let h' : q ≡ render r (ns ++ d.name ∷ []) → Skips q c = rw shift at h in
      let below : has_prefix q (render r (ns ++ d.name ∷ [])) ≡ true =
        has_prefix-render r ns d.name d.name ks i
        ∙ (rw append-nil at (has_prefix-append d.name [])) in
      let cleaned : clean d.filepath ≡ render r (ns ++ d.name ∷ []) =
        ap clean p
        ∙ clean-render r (ns ++ d.name ∷ []) (All-append IsName ns (d.name ∷ []) names (i, tt)) in
      rw shift (
        lifts (d.name ∷ ks) e (snoc done (dir d c)) (λ z. absurd (
          cc (
            below,
            ap (λ x. has_prefix x (render r (ns ++ d.name ∷ []))) z,
            has_prefix-parent r ns d.name i,
          )))
        ∙ ap k (
            append_in_last q e d c done (Beside-Skips_below r ns names d cs later done ks b)
              (ap (λ x. has_prefix q x) cleaned ∙ below)
              (λ a. h' (sym ((bytes_eq_iff d.filepath q).0 a) ∙ p))))

  rebuilt :
      (cs : Entries) (ns : List Bytes) (names : All IsName ns) (k : Entries → Entries)
      (lifts : Lifts r ns k) (done : Entries)
      → Placed r ns cs
      → Beside r ns cs done
      → append_each (items cs) (k done) ≡ k (chain done cs)
  unfolding append_each items_of items Placed PlacedEntry Beside chain
  rebuilt nil ns names k lifts done h b = ap k (sym (chain-nil done))
  rebuilt (cons (file f) es) ns names k lifts done ((p, i), h) b =
      ap (append_each (items es))
        (put_last ns names k lifts f.name (file f) (cons (file f) es) done i p b)
      ∙ rebuilt es ns names k lifts (snoc done (file f)) h (Beside-file r ns f es done b)
      ∙ ap k (chain-snoc done (file f) es)
  rebuilt (cons (dir d cs) es) ns names k lifts done ((p, i, hs), c, h) b =
      ap (append_each (items cs ++ items es))
        (put_last ns names k lifts d.name (dir d nil) (cons (dir d cs) es) done i p b)
      ∙ append_each-append (items cs) (items es) (k (snoc done (dir d nil)))
      ∙ ap (append_each (items es)) (
          rebuilt cs (ns ++ d.name ∷ []) (All-append IsName ns (d.name ∷ []) names (i, tt))
            (λ x. k (snoc done (dir d x))) (Lifts-dir ns names k lifts d cs es done p i b) nil hs
            tt)
      ∙ rebuilt es ns names k lifts (snoc done (dir d cs)) h
          (Beside-dir r ns d cs cs es done p i c b)
      ∙ ap k (chain-snoc done (dir d cs) es)

  -- Appending what a walk visits, each directory in front of its children, to an empty list makes the tree that is walked,
  -- if the tree lies in a directory at a cleaned path, each entry has the path of its directory with its own
  -- name behind it, and the name of no directory is a prefix of that of a later one beside it.
  pub append_each-items :
      (ns : List Bytes) (es : Entries)
      → All IsName ns
      → Placed r ns es
      → append_each (items es) nil ≡ es
  unfolding Beside chain
  append_each-items ns es names h = rebuilt es ns names (λ c. c) (λ ks e c s. refl) nil h tt
