-- ===== src/Bubbletea/Watch/Ends.antt =====
-- How the goroutine ends.
use wish.Base.{
  false, ◌⊎◌, inl, inr, Bool-cases, ◌∙◌, ℕ, suc, ◌+◌, ◌≤◌, List, [], ◌∷◌, ◌++◌, true, ◌≡◌, refl, ap,
  arith, length,
}
use wish.Bubbletea.Watch.Order.{Reach-Inv}
use wish.Bubbletea.Watch.{
  send_zero, zero_panics, Size, WatchPc, watching, recovering, ended, System, Move, move, send,
  send_panics, recover, end, Reach, next,
}

-- Runs of the goroutine alone, by their number of steps.
pub data Alone (s : System) : ℕ → System → Type 0 where
  stop : Alone s 0 s
  onward : {n : ℕ} {t u : System} → Alone s n t → Move t u → Alone s (suc n) u

-- How many steps the goroutine can still make.
abbrev pub left_at : WatchPc → ℕ → ℕ
left_at watching n = n + 1
left_at recovering n = 1
left_at ended n = 0

abbrev pub left : System → ℕ
left s = left_at s.watch (length s.changes)

left_of : (s : System) (p : WatchPc) → s.watch ≡ p → left s ≡ left_at p (length s.changes)
left_of s p e = ap (λ w. left_at w (length s.changes)) e

length-changes :
    (s : System) (x : Size) (xs : List Size)
    → s.changes ≡ x ∷ xs
    → length s.changes ≡ suc (length xs)
length-changes s x xs e = ap (λ l. length l) e

-- While the channel is not closed.
Move-left : {s t : System} → Move s t → s.closed ≡ false → left t + 1 ≤ left s
Move-left {s} (send_zero w e c) o = absurd (cc (c, o))
Move-left {s} (zero_panics w e c) o = absurd (cc (c, o))
Move-left {s} (send x xs w e) o = omega (
  arith,
  left_of s watching w,
  length-changes s x xs e,
  left_of (record s { changes = xs; sent = s.sent ++ x ∷ [] }) watching w,
)
Move-left {s} (send_panics x xs w e) o =
    omega (arith, left_of s watching w, length-changes s x xs e)
Move-left {s} (recover w) o = omega (arith, left_of s recovering w)
Move-left {s} (end w d) o = omega (arith, left_of s watching w)

-- The goroutine closes nothing.
Move-closed : {s t : System} → Move s t → t.closed ≡ s.closed
Move-closed (send x xs w e) = refl
Move-closed (send_panics x xs w e) = refl
Move-closed (send_zero w e c) = refl
Move-closed (zero_panics w e c) = refl
Move-closed (recover w) = refl
Move-closed (end w d) = refl

Alone-closed : {s : System} {n : ℕ} {t : System} → Alone s n t → t.closed ≡ s.closed
Alone-closed stop = refl
Alone-closed (onward r m) = Move-closed m ∙ Alone-closed r

Alone-left :
    {s : System} {n : ℕ} {t : System} → Alone s n t → s.closed ≡ false → n + left t ≤ left s
Alone-left stop o = omega arith
Alone-left (onward r m) o = omega (arith, Alone-left r o, Move-left m (Alone-closed r ∙ o))

Move-done : {s t : System} → Move s t → s.done ≡ true → t.done ≡ true
Move-done (send x xs w e) d = d
Move-done (send_panics x xs w e) d = d
Move-done (send_zero w e c) d = d
Move-done (zero_panics w e c) d = d
Move-done (recover w) d = d
Move-done (end w c) d = d

Alone-done : {s : System} {n : ℕ} {t : System} → Alone s n t → s.done ≡ true → t.done ≡ true
Alone-done stop d = d
Alone-done (onward r m) d = Move-done m (Alone-done r d)

Alone-Reach : {s : System} {n : ℕ} {t : System} → Alone s n t → Reach s → Reach t
Alone-Reach stop h = h
Alone-Reach (onward r m) h = next (Alone-Reach r h) (move m)

-- The goroutine can go on to its end, and has called `Quit` there.
abbrev pub CanEnd : System → Type 0
CanEnd s = (m : ℕ) × (u : System) × Alone s m u × (u.watch ≡ ended) × (u.quit ≡ true)

can_end : (s : System) (p : WatchPc) → s.watch ≡ p → s.done ≡ true → Reach s → CanEnd s
can_end s watching w d r =
    (1, record s { watch = ended; quit = true }, onward stop (end w d), refl, refl)
can_end s recovering w d r = (
  1,
  record s { watch = ended; quit = true; panics = s.panics + 1 },
  onward stop (recover w),
  refl,
  refl,
)
can_end s ended w d r = (0, s, stop, w, (Reach-Inv r).quits w)

left-most : (s : System) (p : WatchPc) → s.watch ≡ p → left s ≤ length s.changes + 1
left-most s watching w = omega (arith, left_of s watching w)
left-most s recovering w = omega (arith, left_of s recovering w)
left-most s ended w = omega (arith, left_of s ended w)

-- In a state that can be reached and of which the context is done, by the client's leaving or by the end
-- of the session: on its own the goroutine makes at most one step more than the channel holds changes,
-- whatever it picks of what is ready, if the channel is not closed; and wherever it stands then, with a
-- closed channel too, it can go on to its end, where it has called `Quit`.
pub watch_ends :
    {n : ℕ} {s t : System}
    → Reach s
    → s.done ≡ true
    → Alone s n t
    → ((s.closed ≡ true) ⊎ (n ≤ length s.changes + 1)) × CanEnd t
watch_ends {n} {s} {t} r d a = (
  elim (Bool-cases s.closed) [
    | inl c ↦ inl c
    | inr o ↦ inr (omega (arith, Alone-left a o, left-most s s.watch refl))
  ],
  can_end t t.watch refl (Alone-done a d) (Alone-Reach a r),
)
