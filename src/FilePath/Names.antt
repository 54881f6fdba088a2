-- ===== src/FilePath/Names.antt =====
-- What the loop of `Clean` does with names and with arbitrary elements.
use mathlib.Core.List.{reverse, reverse-cons}
use wish.Base.{
  ℕ, Bytes, List, [], ◌∷◌, ◌++◌, ◌≡◌, refl, ◌∙◌, arith, All, Lacks, true, false, Bool, append_assoc,
  Lacks-has_byte, has_byte-Lacks,
}
use wish.FilePath.{
  slash, split_slash, join_slash, Cleaned, clean_part, clean_parts, back_out, IsName,
}
use wish.FilePath.Split.{split_slash-join_slash}

pub IsName-Lacks : (ps : List Bytes) → All IsName ps → All (Lacks slash) ps
IsName-Lacks [] h = tt
IsName-Lacks (p ∷ ps) (n, h) = (has_byte-Lacks slash p n.no_slash, IsName-Lacks ps h)

clean_part_name :
    (r : Bool) (c : Cleaned) (p : Bytes)
    → IsName p
    → clean_part r c p ≡ record { ups = c.ups; names = p ∷ c.names }
unfolding clean_part
clean_part_name r c p n = rw (n.nonempty, n.not_dot, n.not_dot_dot)

-- Names are pushed, the last one on top.
pub clean_parts_names :
    (r : Bool) (c : Cleaned) (ps : List Bytes)
    → All IsName ps
    → clean_parts r c ps ≡ record { ups = c.ups; names = reverse ps ++ c.names }
unfolding clean_parts
clean_parts_names r c [] h = refl
clean_parts_names r c (p ∷ ps) (n, h) = rw (
  clean_part_name r c p n,
  clean_parts_names r (record { ups = c.ups; names = p ∷ c.names }) ps h,
  reverse-cons,
  append_assoc,
)

pub clean_parts-append :
    (r : Bool) (c : Cleaned) (ps qs : List Bytes)
    → clean_parts r c (ps ++ qs) ≡ clean_parts r (clean_parts r c ps) qs
unfolding clean_parts
clean_parts-append r c [] qs = refl
clean_parts-append r c (p ∷ ps) qs = clean_parts-append r (clean_part r c p) ps qs

pub clean_parts_empty :
    (r : Bool) (c : Cleaned) (ps : List Bytes) → clean_parts r c ([] ∷ ps) ≡ clean_parts r c ps
unfolding clean_parts
clean_parts_empty r c ps = refl

-- A joined list of names is pushed as it is, also the empty one.
pub clean_parts-join_slash :
    (r : Bool) (c : Cleaned) (ps : List Bytes)
    → All IsName ps
    → clean_parts r c (split_slash (join_slash ps))
      ≡ record { ups = c.ups; names = reverse ps ++ c.names }
clean_parts-join_slash r c [] h = unfold split_slash clean_parts in refl
clean_parts-join_slash r c (p ∷ ps) h =
    rw (split_slash-join_slash p ps (IsName-Lacks (p ∷ ps) h)) (clean_parts_names r c (p ∷ ps) h)

back_out-IsName :
    (r : Bool) (u : ℕ) (ns : List Bytes) → All IsName ns → All IsName (back_out r u ns).names
back_out-IsName r u (n ∷ ns) (h, hs) = hs
back_out-IsName true u [] h = tt
back_out-IsName false u [] h = tt

back_out_rooted : (u : ℕ) (ns : List Bytes) → (back_out true u ns).ups ≡ u
back_out_rooted u (n ∷ ns) = refl
back_out_rooted u [] = refl

clean_part-IsName :
    (r : Bool) (c : Cleaned) (p : Bytes)
    → Lacks slash p
    → All IsName c.names
    → All IsName (clean_part r c p).names
unfolding clean_part
clean_part-IsName r c p h k =
    ground (arith, Lacks-has_byte slash p h, back_out-IsName r c.ups c.names k)

-- Whatever the elements, the names that are left are names.
pub clean_parts-IsName :
    (r : Bool) (c : Cleaned) (ps : List Bytes)
    → All (Lacks slash) ps
    → All IsName c.names
    → All IsName (clean_parts r c ps).names
unfolding clean_parts
clean_parts-IsName r c [] h k = k
clean_parts-IsName r c (p ∷ ps) (n, h) k =
    clean_parts-IsName r (clean_part r c p) ps h (clean_part-IsName r c p n k)

clean_part_rooted : (c : Cleaned) (p : Bytes) → (clean_part true c p).ups ≡ c.ups
unfolding clean_part
clean_part_rooted c p = ground (arith, back_out_rooted c.ups c.names)

-- A rooted path keeps no "..".
pub clean_parts_rooted : (c : Cleaned) (ps : List Bytes) → (clean_parts true c ps).ups ≡ c.ups
unfolding clean_parts
clean_parts_rooted c [] = refl
clean_parts_rooted c (p ∷ ps) = clean_parts_rooted (clean_part true c p) ps ∙ clean_part_rooted c p
