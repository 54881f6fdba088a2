-- ===== src/FilePath/Laws.antt =====
-- Cleaned paths that are made of names, and how `Clean`, `Join` and `Dir` act on them.
use mathlib.Core.List.{reverse, reverse-cons, reverse-append, reverse-reverse}
use wish.Base.{
  Bytes, List, [], ◌∷◌, ◌++◌, ◌≡◌, ◌≢◌, refl, ap, ap₂, ◌∙◌, arith, All, Lacks, true, false, Bool,
  append-nil, append_assoc, bytes_eq, has_byte, Lacks-has_byte, has_byte-Lacks, replicate,
  All-reverse,
}
use wish.FilePath.{
  join_slash, slash, dot_dot, split_slash, slashed, Cleaned, clean_parts, nothing_yet, elements,
  IsName, render, is_rooted, clean, join, dir, through_last_slash,
}
use wish.FilePath.Split.{
  split_slash_of_Lacks, split_slash-append, split_slash-Lacks, slashed-append,
}
use wish.FilePath.Names.{
  clean_parts_names, clean_parts-append, clean_parts_empty, clean_parts-join_slash,
  clean_parts-IsName, clean_parts_rooted,
}

-- The loop's state after the names of a cleaned path.
abbrev at_names : List Bytes → Cleaned
at_names ns = record { ups = 0; names = reverse ns }

elements-at_names : (ns : List Bytes) → elements (at_names ns) ≡ ns
elements-at_names ns = reverse-reverse ns

is_rooted_name : (p t : Bytes) → IsName p → is_rooted (p ++ t) ≡ false
is_rooted_name [] t n = unfold bytes_eq in cc (n.nonempty)
is_rooted_name (c ∷ p) t n = let (h, hs) = has_byte-Lacks slash (c ∷ p) n.no_slash in ground arith

pub is_rooted-render :
    (r : Bool) (ns : List Bytes) (t : Bytes) → All IsName ns → is_rooted (render r ns ++ t) ≡ r
is_rooted-render true ns t h = refl
is_rooted-render false [] t h = refl
is_rooted-render false (p ∷ ps) t (n, h) = rw append_assoc (is_rooted_name p (slashed ps ++ t) n)

split_slash-slash : (s : Bytes) → split_slash (slash ∷ s) ≡ [] ∷ split_slash s
unfolding split_slash
split_slash-slash s = refl

pub name-ne-nil : (p t : Bytes) → IsName p → p ++ t ≢ []
name-ne-nil [] t n e = unfold bytes_eq in cc (n.nonempty)
name-ne-nil (c ∷ p) t n e = cc

-- Cleaning goes through a cleaned path without a change to it, and goes on with what follows.
clean_parts-render :
    (r : Bool) (ns : List Bytes)
    → All IsName ns
    → clean_parts r nothing_yet (split_slash (render r ns)) ≡ at_names ns
clean_parts-render true ns h =
    rw (
      split_slash-slash,
      clean_parts_empty,
      clean_parts-join_slash true nothing_yet ns h,
      append-nil,
    )
clean_parts-render false [] h = unfold clean_parts split_slash in refl
clean_parts-render false (p ∷ ps) h =
    rw (clean_parts-join_slash false nothing_yet (p ∷ ps) h, append-nil)

clean-render_append :
    (r : Bool) (ns : List Bytes) (b : Bytes)
    → All IsName ns
    → clean (render r ns ++ slash ∷ b)
      ≡ render r (elements (clean_parts r (at_names ns) (split_slash b)))
unfolding clean
clean-render_append r ns b h = rw (
  is_rooted-render r ns (slash ∷ b) h,
  split_slash-append (render r ns) b,
  clean_parts-append r nothing_yet (split_slash (render r ns)) (split_slash b),
  clean_parts-render r ns h,
)

pub clean-render : (r : Bool) (ns : List Bytes) → All IsName ns → clean (render r ns) ≡ render r ns
unfolding clean
clean-render r ns h =
    let rooted : is_rooted (render r ns) ≡ r = rw append-nil at (is_rooted-render r ns [] h) in
    rw (rooted, clean_parts-render r ns h) (ap (render r) (elements-at_names ns))

-- A second slash in front is dropped.
pub clean-slash_names :
    (ns : List Bytes) → All IsName ns → clean (slash ∷ render true ns) ≡ render true ns
unfolding clean
clean-slash_names ns h =
    rw
      (
        split_slash-slash (render true ns),
        split_slash-slash (join_slash ns),
        clean_parts_empty true nothing_yet ([] ∷ split_slash (join_slash ns)),
        clean_parts_empty true nothing_yet (split_slash (join_slash ns)),
        clean_parts-join_slash true nothing_yet ns h,
        append-nil,
      )
      (ap (render true) (elements-at_names ns))

join-eq-clean : (a b : Bytes) → a ≢ [] → join a b ≡ clean (a ++ slash ∷ b)
unfolding join
join-eq-clean [] b h = absurd (h refl)
join-eq-clean (c ∷ a) b h = refl

render-ne-nil : (r : Bool) (ns : List Bytes) → All IsName ns → render r ns ≢ []
render-ne-nil true ns h = ground arith
render-ne-nil false [] h = ground arith
render-ne-nil false (p ∷ ps) (n, h) = name-ne-nil p (slashed ps) n

join-render :
    (r : Bool) (ns : List Bytes) (b : Bytes)
    → All IsName ns
    → join (render r ns) b ≡ render r (elements (clean_parts r (at_names ns) (split_slash b)))
join-render r ns b h =
    join-eq-clean (render r ns) b (render-ne-nil r ns h) ∙ clean-render_append r ns b h

-- What `Join` appends to a cleaned path of names: names, in order.
pub join-render_names :
    (r : Bool) (ns ms : List Bytes)
    → All IsName ns
    → All IsName ms
    → join (render r ns) (render true ms) ≡ render r (ns ++ ms)
join-render_names r ns ms h k =
    join-render r ns (render true ms) h
    ∙ rw (split_slash-slash, clean_parts_empty, clean_parts-join_slash r (at_names ns) ms k)
        (ap (render r) (
          reverse-append (reverse ms) (reverse ns)
          ∙ ap₂ ◌++◌ (reverse-reverse ns) (reverse-reverse ms)))

pub join-render_name :
    (r : Bool) (ns : List Bytes) (n : Bytes)
    → All IsName ns
    → IsName n
    → join (render r ns) n ≡ render r (ns ++ n ∷ [])
join-render_name r ns n h k =
    join-render r ns n h
    ∙ rw
        (
          split_slash_of_Lacks n (has_byte-Lacks slash n k.no_slash),
          clean_parts_names r (at_names ns) (n ∷ []) (k, tt),
        )
        (ap (render r) (reverse-cons n (reverse ns) ∙ ap (λ t. t ++ n ∷ []) (reverse-reverse ns)))

-- A path with a slash in front cleans to names behind the slash: no ".." is left.
pub clean-slash :
    (path : Bytes) → (ms : List Bytes) × (clean (slash ∷ path) ≡ render true ms) × All IsName ms
unfolding clean
clean-slash path =
    let c = clean_parts true nothing_yet (split_slash (slash ∷ path)) in
    (
      reverse c.names,
      ap (λ u. render true (replicate u dot_dot ++ reverse c.names))
          (clean_parts_rooted nothing_yet (split_slash (slash ∷ path))),
      All-reverse IsName c.names (
          clean_parts-IsName true nothing_yet (split_slash (slash ∷ path))
            (split_slash-Lacks (slash ∷ path)) tt),
    )

through_last_slash_of_Lacks : (b : Bytes) → Lacks slash b → through_last_slash b ≡ []
unfolding through_last_slash
through_last_slash_of_Lacks [] h = refl
through_last_slash_of_Lacks (c ∷ b) (n, h) = ground (arith, Lacks-has_byte slash b h)

has_byte-append : (a b : Bytes) → has_byte slash (a ++ slash ∷ b) ≡ true
unfolding has_byte
has_byte-append [] b = refl
has_byte-append (c ∷ a) b = ground (arith, has_byte-append a b)

through_last_slash-append :
    (a b : Bytes) → Lacks slash b → through_last_slash (a ++ slash ∷ b) ≡ a ++ slash ∷ []
unfolding through_last_slash
through_last_slash-append [] b h = ground (arith, through_last_slash_of_Lacks b h)
through_last_slash-append (c ∷ a) b h =
    ground (arith, through_last_slash-append a b h, has_byte-append a b)

render-concat :
    (r : Bool) (p n : Bytes) (ps : List Bytes)
    → render r ((p ∷ ps) ++ n ∷ []) ≡ render r (p ∷ ps) ++ slash ∷ n
render-concat true p n ps = simp (slashed-append, append-nil, append_assoc)
render-concat false p n ps = simp (slashed-append, append-nil, append_assoc)

dir-slash :
    (r : Bool) (ns : List Bytes) (n : Bytes)
    → All IsName ns
    → IsName n
    → dir (render r ns ++ slash ∷ n) ≡ render r ns
unfolding dir
dir-slash r ns n h k =
    rw
      (
        through_last_slash-append (render r ns) n (has_byte-Lacks slash n k.no_slash),
        clean-render_append r ns [] h,
      )
      (unfold clean_parts split_slash in ap (render r) (elements-at_names ns))

dir_one : (r : Bool) (n : Bytes) → IsName n → dir (render r (n ∷ [])) ≡ render r []
unfolding dir
dir_one true n k =
    ap clean (
      ap (λ t. through_last_slash (slash ∷ t)) (append-nil n)
      ∙ through_last_slash-append [] n (has_byte-Lacks slash n k.no_slash))
    ∙ clean-render true [] tt
dir_one false n k =
    rw (append-nil, through_last_slash_of_Lacks n (has_byte-Lacks slash n k.no_slash))
      (unfold clean in refl)

-- `Dir` takes the last name off.
pub dir-render :
    (r : Bool) (ns : List Bytes) (n : Bytes)
    → All IsName ns
    → IsName n
    → dir (render r (ns ++ n ∷ [])) ≡ render r ns
dir-render r [] n h k = dir_one r n k
dir-render r (p ∷ ps) n h k = rw (render-concat r p n ps) (dir-slash r (p ∷ ps) n h k)
