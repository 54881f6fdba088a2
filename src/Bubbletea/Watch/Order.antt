-- ===== src/Bubbletea/Watch/Order.antt =====
-- What holds in every state that the session and the goroutine can reach.
use wish.Base.{
  ℕ, zero, suc, append-nil, ◌≤◌, arith, List, [], ◌∷◌, ◌++◌, true, ◌≡◌, refl, append_assoc, ap, sym,
  ◌∙◌, ◌⊎◌, inl, inr,
}
use wish.Bubbletea.Watch.{
  Size, watching, ended, passed_on, System, Move, Step, move, resize, leave, run_returns, kill,
  cancel, close, zero_size, send_zero, zero_panics, send, send_panics, recover, end, Reach, here,
  next,
}

-- So many zero sizes.
abbrev pub zero_sizes : ℕ → List Size
zero_sizes zero = []
zero_sizes (suc k) = zero_sizes k ++ zero_size ∷ []

pub record Inv (s : System) : Type 0 where
  -- The first changes of the client, the others, and the number of zero sizes.
  pub front : List Size
  pub rest : List Size
  pub zeros : ℕ
  -- No change of the window is lost or out of order while the goroutine is in its loop; at any time the
  -- program has been sent the first ones, and behind the last one zero sizes, only if the channel is closed.
  pub of_client : s.resized ≡ front ++ rest
  pub of_program : s.sent ≡ front ++ zero_sizes zeros
  pub behind_close : (zeros ≡ 0) ⊎ (s.closed ≡ true) × (rest ≡ [])
  pub in_order : s.watch ≡ watching → rest ≡ s.changes
  -- The goroutine ends only with a call of `Quit`, and only where the context is done or a message
  -- has panicked.
  pub quits : s.watch ≡ ended → s.quit ≡ true
  pub has_cause : s.watch ≡ ended → (s.done ≡ true) ⊎ (1 ≤ s.panics)
  -- The next handler starts with a context that is done.
  pub cancelled : s.session ≡ passed_on → s.done ≡ true

more : (a b c : List Size) (x : Size) → a ≡ b ++ c → a ++ x ∷ [] ≡ b ++ (c ++ x ∷ [])
more a b c x e = ap (λ l. l ++ x ∷ []) e ∙ append_assoc b c (x ∷ [])

moved : (a b xs : List Size) (x : Size) → a ≡ b ++ x ∷ xs → a ≡ (b ++ x ∷ []) ++ xs
moved a b xs x e = e ∙ sym (append_assoc b (x ∷ []) xs)

Move-Inv : {s t : System} → Move s t → Inv s → Inv t
Move-Inv {s} (send x xs w e) i = elim i.behind_close [
  | inr (c, n) ↦ absurd (cc (i.in_order w, e, n))
  | inl z ↦ record {
    front = i.front ++ x ∷ [];
    rest = xs;
    zeros = 0;
    of_client =
        moved s.resized i.front xs x (i.of_client ∙ ap (λ l. i.front ++ l) (i.in_order w ∙ e));
    of_program =
        ap (λ l. l ++ x ∷ [])
          (i.of_program ∙ ap (λ k. i.front ++ zero_sizes k) z ∙ append-nil i.front)
        ∙ sym (append-nil (i.front ++ x ∷ []));
    behind_close = inl refl;
    in_order = λ w'. refl;
    quits = i.quits;
    has_cause = i.has_cause;
    cancelled = i.cancelled;
  }
]
Move-Inv {s} (send_zero w e c) i = record {
  front = i.front;
  rest = i.rest;
  zeros = suc i.zeros;
  of_client = i.of_client;
  of_program = more s.sent i.front (zero_sizes i.zeros) zero_size i.of_program;
  behind_close = inr (c, i.in_order w ∙ e);
  in_order = i.in_order;
  quits = i.quits;
  has_cause = i.has_cause;
  cancelled = i.cancelled;
}
Move-Inv (zero_panics w e c) i = record {
  front = i.front;
  rest = i.rest;
  zeros = i.zeros;
  of_client = i.of_client;
  of_program = i.of_program;
  behind_close = i.behind_close;
  in_order = λ p. absurd (cc p);
  quits = λ p. absurd (cc p);
  has_cause = λ p. absurd (cc p);
  cancelled = i.cancelled;
}
Move-Inv (send_panics x xs w e) i = record {
  front = i.front;
  rest = i.rest;
  zeros = i.zeros;
  of_client = i.of_client;
  of_program = i.of_program;
  behind_close = i.behind_close;
  in_order = λ p. absurd (cc p);
  quits = λ p. absurd (cc p);
  has_cause = λ p. absurd (cc p);
  cancelled = i.cancelled;
}
Move-Inv (recover e) i = record {
  front = i.front;
  rest = i.rest;
  zeros = i.zeros;
  of_client = i.of_client;
  of_program = i.of_program;
  behind_close = i.behind_close;
  in_order = λ p. absurd (cc p);
  quits = λ p. refl;
  has_cause = λ p. inr (omega arith);
  cancelled = i.cancelled;
}
Move-Inv (end e d) i = record {
  front = i.front;
  rest = i.rest;
  zeros = i.zeros;
  of_client = i.of_client;
  of_program = i.of_program;
  behind_close = i.behind_close;
  in_order = λ p. absurd (cc p);
  quits = λ p. refl;
  has_cause = λ p. inl d;
  cancelled = i.cancelled;
}

Step-Inv : {s t : System} → Step s t → Inv s → Inv t
Step-Inv {s} (resize x o) i = elim i.behind_close [
  | inr (c, n) ↦ absurd (cc (o, c))
  | inl z ↦ record {
    front = i.front;
    rest = i.rest ++ x ∷ [];
    zeros = i.zeros;
    of_client = more s.resized i.front i.rest x i.of_client;
    of_program = i.of_program;
    behind_close = inl z;
    in_order = λ w. ap (λ l. l ++ x ∷ []) (i.in_order w);
    quits = i.quits;
    has_cause = i.has_cause;
    cancelled = i.cancelled;
  }
]
Step-Inv {s} close i = record {
  front = i.front;
  rest = i.rest;
  zeros = i.zeros;
  of_client = i.of_client;
  of_program = i.of_program;
  behind_close = elim i.behind_close [ inl z ↦ inl z | inr (c, n) ↦ inr (refl, n) ];
  in_order = i.in_order;
  quits = i.quits;
  has_cause = i.has_cause;
  cancelled = i.cancelled;
}
Step-Inv leave i = record {
  front = i.front;
  rest = i.rest;
  zeros = i.zeros;
  of_client = i.of_client;
  of_program = i.of_program;
  behind_close = i.behind_close;
  in_order = i.in_order;
  quits = i.quits;
  has_cause = λ w. inl refl;
  cancelled = λ p. refl;
}
Step-Inv (run_returns e) i = record {
  front = i.front;
  rest = i.rest;
  zeros = i.zeros;
  of_client = i.of_client;
  of_program = i.of_program;
  behind_close = i.behind_close;
  in_order = i.in_order;
  quits = i.quits;
  has_cause = i.has_cause;
  cancelled = λ p. absurd (cc p);
}
Step-Inv (kill e) i = record {
  front = i.front;
  rest = i.rest;
  zeros = i.zeros;
  of_client = i.of_client;
  of_program = i.of_program;
  behind_close = i.behind_close;
  in_order = i.in_order;
  quits = i.quits;
  has_cause = i.has_cause;
  cancelled = λ p. absurd (cc p);
}
Step-Inv (cancel e) i = record {
  front = i.front;
  rest = i.rest;
  zeros = i.zeros;
  of_client = i.of_client;
  of_program = i.of_program;
  behind_close = i.behind_close;
  in_order = i.in_order;
  quits = i.quits;
  has_cause = λ w. inl refl;
  cancelled = λ p. refl;
}
Step-Inv (move m) i = Move-Inv m i

-- In every state that can be reached: the program has been sent the first of the client's changes of
-- the window, in order, and all that the channel does not hold while the goroutine is in its loop; behind all of
-- them it has been sent any number of zero sizes, if the channel has been closed, and else nothing; the
-- goroutine has ended only with a call of `Quit`, and with a context that is done or a panic that is
-- logged; and the next handler has started only with a context that is done.
pub Reach-Inv : {s : System} → Reach s → Inv s
Reach-Inv here = record {
  front = [];
  rest = [];
  zeros = 0;
  of_client = refl;
  of_program = refl;
  behind_close = inl refl;
  in_order = λ w. refl;
  quits = λ w. absurd (cc w);
  has_cause = λ w. absurd (cc w);
  cancelled = λ p. absurd (cc p);
}
Reach-Inv (next r st) = Step-Inv st (Reach-Inv r)
