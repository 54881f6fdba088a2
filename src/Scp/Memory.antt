-- ===== src/Scp/Memory.antt =====
-- A handler for `copyFromClient` that keeps what it is told in memory: what it is told to make and to
-- store, the last first. It reads a file to the end of its reader, four bytes at a time.
use wish.Base.{
  ℕ, zero, suc, ◌<◌, subst, Bytes, codes, List, [], ◌∷◌, ◌++◌, Bool, length, take, drop, ◌≡◌, refl,
  arith, ap, sym, ◌∙◌, append_assoc, append-nil, none, length-drop, take-append-drop,
}
use wish.Scp.Entry.{DirInfo}
use wish.Scp.Stream.{Stream, Status, fine, eof, failed, LimitReader, limit_read, later_cuts}
use wish.Scp.Stream.Portions.{reader_of, portion, portion_bounds, read_portion}
use wish.Scp.Receive.{
  FileInfo, Outcome, wrote, refused, Program, finish, ask, CopyFromClientHandler, run_program,
}
use wish.Scp.Receive.Lines.{Stores}

pub data Item : Type 0 where
  made_dir : DirInfo → Item
  stored_file : FileInfo → Bytes → Item

abbrev pub Memory : Type 0
Memory = List Item

abbrev next_part :
    FileInfo → Bytes → Memory → (Bytes → Program Memory) → Bytes → Status → Program Memory
next_part i acc s more b fine = more b
next_part i acc s more b eof = finish (stored_file i acc ∷ s) (wrote (length acc))
next_part i acc s more b failed = finish s (refused (codes "read"))

unfoldable pub drain : ℕ → FileInfo → Bytes → Memory → Program Memory
drain zero i acc s = finish s (refused (codes "out of fuel"))
drain (suc fuel) i acc s = ask 4 (next_part i acc s (λ b. drain fuel i (acc ++ b) s))

abbrev pub memory_handler : CopyFromClientHandler Memory
memory_handler = record {
  mkdir = λ d s. (made_dir d ∷ s, none);
  write = λ i s. drain (suc i.size) i [] s;
}

abbrev Drained : FileInfo → Bytes → Memory → Bytes → Memory × Outcome × LimitReader → Type 0
Drained i b s t x = (x.0 ≡ stored_file i b ∷ s) × (x.1 ≡ wrote (length b)) × (x.2.r.rest ≡ t)

drain-Drained :
    (fuel : ℕ) (i : FileInfo) (acc : Bytes) (s : Memory) (b t : Bytes) (cuts : List ℕ)
    (broken : Bool)
    → length b < fuel
    → Drained i
        (acc ++ b)
        s
        t
        (run_program (drain fuel i acc s) (reader_of (b ++ t) cuts broken (length b)))
unfolding drain run_program
drain-Drained zero i acc s b t cuts broken h = absurd (omega (arith, h))
drain-Drained (suc fuel) i acc s [] t cuts broken h =
    unfold limit_read in rw (append-nil acc) (refl, refl, refl)
drain-Drained (suc fuel) i acc s (c ∷ b) t cuts broken h =
    let k = portion 4 (c ∷ b) cuts in
    let (lo, hi) = portion_bounds 4 c b cuts (omega arith) in
    let whole : (acc ++ take k (c ∷ b)) ++ drop k (c ∷ b) ≡ acc ++ c ∷ b =
      append_assoc acc (take k (c ∷ b)) (drop k (c ∷ b))
      ∙ ap (λ x. acc ++ x) (take-append-drop k (c ∷ b)) in
    let rest =
      drain-Drained fuel i (acc ++ take k (c ∷ b)) s (drop k (c ∷ b)) t (later_cuts cuts) broken
        (omega (arith, h, lo, length-drop k (c ∷ b))) in
    subst
      (λ g. Drained i (acc ++ c ∷ b) s t (
        run_program (next_part i acc s (λ x. drain fuel i (acc ++ x) s) g.bytes g.status) g.reader))
      (sym (read_portion 4 c b t cuts broken (omega arith)))
      (subst
        (λ z. Drained i z s t (
          run_program (drain fuel i (acc ++ take k (c ∷ b)) s)
            (reader_of (drop k (c ∷ b) ++ t) (later_cuts cuts) broken (length (drop k (c ∷ b))))))
        whole rest)

pub Drained-whole :
    (i : FileInfo) (s : Memory) (r : Stream) (b t : Bytes)
    → r.rest ≡ b ++ t
    → Drained i b s t
        (run_program (drain (suc (length b)) i [] s) (record { r = r; left = length b }))
Drained-whole i s r b t e =
    subst
      (λ x.
        Drained i b s t
          (run_program (drain (suc (length b)) i [] s) (reader_of x r.cuts r.broken (length b))))
      (sym e) (drain-Drained (suc (length b)) i [] s b t r.cuts r.broken (omega arith))

abbrev pub memory_stores : Stores memory_handler
memory_stores = record {
  made = λ d s. made_dir d ∷ s;
  stored = λ i b s. stored_file i b ∷ s;
  mkdir_lem = λ d s. refl;
  write_lem = λ i s r b t e f.
      subst
        (λ n.
          let x = run_program (drain (suc n) i [] s) (record { r = r; left = n }) in
          (x.0 ≡ stored_file i b ∷ s) × (x.1 ≡ wrote n) × (x.2.r.rest ≡ t))
        f (Drained-whole i s r b t e);
}
