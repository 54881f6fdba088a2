-- ===== src/Examples/Terminal/Current.antt =====
-- The size that the program shows.
use wish.Base.{
  List, [], ◌∷◌, ◌++◌, true, false, some, ◌≡◌, refl, sym, ap, ◌∙◌, inl, inr, Bool-cases,
}
use wish.Session.{Session, Pty}
use wish.Bubbletea.Watch.{Size, System, Reach, watching}
use wish.Bubbletea.Watch.Order.{Inv, Reach-Inv, zero_sizes}
use wish.Examples.Terminal.{
  Msg, color_profile, background_color, window_size, key_msg, other_msg, Model, model_of,
  tea_handler, update, run_updates,
}

abbrev pub size_of : Model → Size
size_of m = record { width = m.width; height = m.height }

-- The last of the sizes, or else the first one.
abbrev pub last_size : Size → List Size → Size
last_size x [] = x
last_size x (y ∷ ys) = last_size y ys

-- Where the channel is empty and not closed, the program has been sent what the client has sent.
sent_all :
    {t : System}
    → Inv t
    → t.watch ≡ watching
    → t.changes ≡ []
    → t.closed ≡ false
    → t.resized ≡ t.sent
sent_all {t} i w n o = elim i.behind_close [
  | inr (c, e) ↦ absurd (cc (c, o))
  | inl z ↦
      i.of_client
      ∙ ap (λ l. i.front ++ l) (i.in_order w ∙ n)
      ∙ sym (i.of_program ∙ ap (λ k. i.front ++ zero_sizes k) z)
]

module _ {A : Type 0} where
  -- The sizes among the messages
  abbrev pub sizes_in : List (Msg A) → List Size
  sizes_in [] = []
  sizes_in (window_size x ∷ ms) = x ∷ sizes_in ms
  sizes_in (color_profile p ∷ ms) = sizes_in ms
  sizes_in (background_color b ∷ ms) = sizes_in ms
  sizes_in (key_msg k ∷ ms) = sizes_in ms
  sizes_in (other_msg a ∷ ms) = sizes_in ms

  run_updates-last_size :
      (ms : List (Msg A)) (m : Model)
      → (run_updates ms m).1 ≡ false
      → size_of (run_updates ms m).0 ≡ last_size (size_of m) (sizes_in ms)
  unfolding run_updates update
  run_updates-last_size [] m q = refl
  run_updates-last_size (window_size x ∷ ms) m q =
      run_updates-last_size ms (record m { width = x.width; height = x.height }) q
  run_updates-last_size (color_profile p ∷ ms) m q =
      run_updates-last_size ms (record m { profile = p }) q
  run_updates-last_size (background_color true ∷ ms) m q = run_updates-last_size ms _ q
  run_updates-last_size (background_color false ∷ ms) m q = run_updates-last_size ms m q
  run_updates-last_size (other_msg a ∷ ms) m q = run_updates-last_size ms m q
  run_updates-last_size (key_msg k ∷ ms) m q = elim (Bool-cases (update {A = A} (key_msg k) m).1) [
    | inl e ↦ absurd (cc (rw e at q))
    | inr e ↦ rw e (run_updates-last_size ms m (rw e at q))
  ]

  -- In every state that the session, the goroutine beside it and the client can reach: while the goroutine is in its loop and
  -- the channel holds no change and has not been closed, a program that has handled what it was sent, among messages of any other kind and
  -- without one that quits, has the size of the client's window: that of its last change, or the one with which
  -- the session asked for the terminal.
  pub run_updates-Current :
      (s : Session) (p : Pty) (t : System) (ms : List (Msg A))
      → s.pty ≡ some p
      → Reach t
      → t.watch ≡ watching
      → t.changes ≡ []
      → t.closed ≡ false
      → sizes_in ms ≡ t.sent
      → (run_updates ms (tea_handler s)).1 ≡ false
      → size_of (run_updates ms (tea_handler s)).0
        ≡ last_size (record { width = p.width; height = p.height }) t.resized
  unfolding tea_handler
  run_updates-Current s p t ms e r w n o f q =
      let i : Inv t = Reach-Inv r in
      let all : t.resized ≡ t.sent = sent_all i w n o in
      run_updates-last_size ms (tea_handler s) q
      ∙ ap (λ o. last_size (size_of (model_of o)) (sizes_in ms)) e
      ∙ ap (last_size (record { width = p.width; height = p.height })) (f ∙ sym all)
