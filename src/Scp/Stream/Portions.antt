-- ===== src/Scp/Stream/Portions.antt =====
-- What a read of a limit reader delivers, where the limit is what the stream still has of a file.
use wish.Base.{
  ℕ, zero, suc, ◌-◌, ◌≤◌, false, Bytes, List, [], ◌∷◌, ◌++◌, Bool, length, take, drop, leb, ◌≡◌,
  refl, arith, ap, length-take, length-drop,
}
use wish.Scp.Stream.{fine, LimitReader, limit_read, read, cut_of, later_cuts, smaller}
use wish.Scp.Stream.Limits.{cut_of_bounds}

abbrev pub reader_of : Bytes → List ℕ → Bool → ℕ → LimitReader
reader_of rest cuts broken left = record {
  r = record { rest = rest; cuts = cuts; broken = broken };
  left = left;
}

take_front : (k : ℕ) (b t : Bytes) → k ≤ length b → take k (b ++ t) ≡ take k b
take_front zero b t h = refl
take_front (suc k) [] t h = absurd (omega (arith, h))
take_front (suc k) (c ∷ b) t h = ap (λ x. c ∷ x) (take_front k b t (omega (arith, h)))

drop_front : (k : ℕ) (b t : Bytes) → k ≤ length b → drop k (b ++ t) ≡ drop k b ++ t
drop_front zero b t h = refl
drop_front (suc k) [] t h = absurd (omega (arith, h))
drop_front (suc k) (c ∷ b) t h = drop_front k b t (omega (arith, h))

-- The least of what a read asks for, of the limit, and of what the network delivers.
abbrev pub portion : ℕ → Bytes → List ℕ → ℕ
portion n b cuts = cut_of cuts (smaller n (length b))

smaller_bounds : (n m : ℕ) → 1 ≤ n → 1 ≤ m → (1 ≤ smaller n m) × (smaller n m ≤ m)
smaller_bounds n m a b = (ground arith, ground arith)

pub portion_bounds :
    (n c : ℕ) (b : Bytes) (cuts : List ℕ)
    → 1 ≤ n
    → (1 ≤ portion n (c ∷ b) cuts) × (portion n (c ∷ b) cuts ≤ length (c ∷ b))
portion_bounds n c b cuts one =
    let (most, least) = cut_of_bounds cuts (smaller n (length (c ∷ b))) in
    let (lo, hi) = smaller_bounds n (length (c ∷ b)) one (omega arith) in
    (least lo, omega (arith, most, hi))

-- A read of a reader that has bytes left.
pub read_portion :
    (n c : ℕ) (b t : Bytes) (cuts : List ℕ) (broken : Bool)
    → 1 ≤ n
    → limit_read n (reader_of ((c ∷ b) ++ t) cuts broken (length (c ∷ b))) ≡ record {
      bytes = take (portion n (c ∷ b) cuts) (c ∷ b);
      status = fine;
      reader =
          reader_of
            (drop (portion n (c ∷ b) cuts) (c ∷ b) ++ t)
            (later_cuts cuts)
            broken
            (length (drop (portion n (c ∷ b) cuts) (c ∷ b)));
    }
unfolding limit_read read
read_portion n c b t cuts broken one =
    let k = portion n (c ∷ b) cuts in
    let (lo, hi) = portion_bounds n c b cuts one in
    let left : length (c ∷ b) - length (take k (c ∷ b)) ≡ length (drop k (c ∷ b)) =
      omega (arith, hi, length-take k (c ∷ b), length-drop k (c ∷ b)) in
    let some_left : leb (length (c ∷ b)) 0 ≡ false = ground arith in
    rw (some_left, take_front k (c ∷ b) t hi, drop_front k (c ∷ b) t hi, left) refl
