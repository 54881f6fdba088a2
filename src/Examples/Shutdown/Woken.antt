-- ===== src/Examples/Shutdown/Woken.antt =====
-- When the server of the example is stopped.
use mathlib.Core.Bool.{or-true, or-false, or_assoc}
use wish.Base.{
  All, Bytes, List, [], ◌∷◌, ◌++◌, codes, Bool, true, false, ◌||◌, ◌≡◌, refl, ◌∙◌, sym, ap,
}
use wish.Examples.Shutdown.{
  after_shutdown, Returned, reported, no_error, server_closed, other_error, MainAt, waiting, woken,
  shutting_down, ended, ServeAt, starting, serving, reporting, served, State, at, start, Input,
  signal, serve_returns, shutdown_returns, Step, arrive, listen, serve_ends, report, wake, stop,
  shutdown_ends, Steps, finished, step,
}

abbrev pub is_awake : MainAt → Bool
is_awake waiting = false
is_awake woken = true
is_awake shutting_down = true
is_awake ended = true

abbrev pub is_reporting : ServeAt → Bool
is_reporting reporting = true
is_reporting starting = false
is_reporting serving = false
is_reporting served = false

-- `main` has been woken, or will be: a value is in the channel, or the goroutine is about to put one there.
abbrev pub is_called : State → Bool
is_called σ = is_awake σ.main || (σ.done || is_reporting σ.serve)

-- A signal, or an error of `ListenAndServe` that is not that it was closed.
abbrev pub is_cause : Input → Bool
is_cause signal = true
is_cause (serve_returns no_error) = false
is_cause (serve_returns server_closed) = false
is_cause (serve_returns (other_error e)) = true
is_cause (shutdown_returns r) = false

abbrev pub any_cause : List Input → Bool
any_cause [] = false
any_cause (i ∷ is) = is_cause i || any_cause is

any_cause-append : (is js : List Input) → any_cause (is ++ js) ≡ (any_cause is || any_cause js)
any_cause-append [] js = refl
any_cause-append (i ∷ is) js =
    ap (λ b. is_cause i || b) (any_cause-append is js)
    ∙ sym (or_assoc (is_cause i) (any_cause is) (any_cause js))

served-called : (a d : Bool) → (a || (d || true)) ≡ (a || (d || false) || true)
served-called true d = refl
served-called false true = refl
served-called false false = refl

Step-is_called :
    {σ τ : State} {is : List Input} → Step σ is τ → is_called τ ≡ (is_called σ || any_cause is)
Step-is_called (arrive m s d ls) =
    or-true (is_awake m) ∙ sym (or-true (is_awake m || (d || is_reporting s)))
Step-is_called (listen m d ls) = sym (or-false (is_awake m || (d || false)))
Step-is_called (serve_ends m d ls no_error) = sym (or-false (is_awake m || (d || false)))
Step-is_called (serve_ends m d ls server_closed) = sym (or-false (is_awake m || (d || false)))
Step-is_called (serve_ends m d ls (other_error e)) = served-called (is_awake m) d
Step-is_called (report m ls) = sym (or-false (is_awake m || true))
Step-is_called (wake s ls) = refl
Step-is_called (stop s d ls) = refl
Step-is_called (shutdown_ends s d ls r) = refl

Steps-is_called :
    {σ τ : State} {is : List Input} → Steps σ is τ → is_called τ ≡ (is_called σ || any_cause is)
Steps-is_called (finished σ) = sym (or-false (is_called σ))
Steps-is_called (step {σ} {τ} {υ} {is} {js} p q) =
    Steps-is_called q
    ∙ ap (λ b. b || any_cause js) (Step-is_called p)
    ∙ or_assoc (is_called σ) (any_cause is) (any_cause js)
    ∙ ap (λ b. is_called σ || b) (sym (any_cause-append is js))

-- Whatever the two goroutines did so far, and in whatever order: `main` has left its wait, or a value is in
-- the channel, or about to be put there, exactly if a signal came or `ListenAndServe` returned an error other than
-- that the server was closed. So the server is not stopped without a cause, and a channel for one value loses none.
pub Steps-called : (σ : State) (is : List Input) → Steps start is σ → is_called σ ≡ any_cause is
unfolding start
Steps-called σ is p = Steps-is_called p

-- Steps that end `main`, with nothing from outside but what `Shutdown` returns.
abbrev pub Ends : Returned → State → Type 0
Ends r σ =
    (is : List Input) × (τ : State) × Steps σ is τ
    × All (λ i. i ≡ shutdown_returns r) is
    × (τ.main ≡ ended)

module _ (r : Returned) where
  shutting_down-Ends : (s : ServeAt) (d : Bool) (ls : List Bytes) → Ends r (at shutting_down s d ls)
  shutting_down-Ends s d ls =
      let σ = at ended s d (after_shutdown (reported r) ls) in
      (shutdown_returns r ∷ [], σ, step (shutdown_ends s d ls r) (finished σ), (refl, tt), refl)

  before-Ends : {σ τ : State} → Step σ [] τ → Ends r τ → Ends r σ
  before-Ends p (is, υ, q, c, e) = (is, υ, step p q, c, e)

  woken-Ends : (s : ServeAt) (d : Bool) (ls : List Bytes) → Ends r (at woken s d ls)
  woken-Ends s d ls =
      before-Ends (stop s d ls) (shutting_down-Ends s d (ls ++ codes "Stopping SSH server" ∷ []))

  is_called-Ends :
      (m : MainAt) (s : ServeAt) (d : Bool) (ls : List Bytes)
      → is_called (at m s d ls) ≡ true
      → Ends r (at m s d ls)
  is_called-Ends waiting s true ls h = before-Ends (wake s ls) (woken-Ends s false ls)
  is_called-Ends waiting reporting false ls h =
      before-Ends (report waiting ls) (before-Ends (wake served ls) (woken-Ends served false ls))
  is_called-Ends waiting starting false ls h = absurd (cc h)
  is_called-Ends waiting serving false ls h = absurd (cc h)
  is_called-Ends waiting served false ls h = absurd (cc h)
  is_called-Ends woken s d ls h = woken-Ends s d ls
  is_called-Ends shutting_down s d ls h = shutting_down-Ends s d ls
  is_called-Ends ended s d ls h = ([], at ended s d ls, finished (at ended s d ls), tt, refl)

-- Wherever the two goroutines are, if a signal has come or `ListenAndServe` has returned an error other than that the
-- server was closed: `main` can reach its end with nothing else from outside than that `Shutdown` returns, whatever it
-- returns. So it waits neither for another signal nor for the return of `ListenAndServe`.
pub Steps-Ends :
    (r : Returned) (σ : State) (is : List Input) → Steps start is σ → any_cause is ≡ true → Ends r σ
Steps-Ends r σ is p h = is_called-Ends r σ.main σ.serve σ.done σ.lines (Steps-called σ is p ∙ h)
