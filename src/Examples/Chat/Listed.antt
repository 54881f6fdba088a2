-- ===== src/Examples/Chat/Listed.antt =====
-- The list of programs, and what has been sent to each of them.
use wish.Base.{
  List, [], ◌∷◌, ◌++◌, map, Bool, true, false, ◌≡◌, refl, ap, sym, ◌∙◌, All, All-append,
  All-append_left, All-append_right, append_assoc, append-nil, subst,
}
use wish.Examples.Chat.{
  ChatMsg, Widgets, Model, Effect, no_effect, quits, sends, update, Prog, posted, send,
  program_handler, handled, Step, begin, handle, deliver, ignore,
}

pub map-append : {A B : Type 0} (f : A → B) (a b : List A) → map f (a ++ b) ≡ map f a ++ map f b
map-append f [] b = refl
map-append f (x ∷ a) b = ap (λ t. f x ∷ t) (map-append f a b)

-- What was sent to each program that begins later is the last part of what was sent to this one.
abbrev pub EndsWith : List ChatMsg → List ChatMsg → Type 0
EndsWith o q = (front : List ChatMsg) × (o ≡ front ++ q)

unfoldable pub Nested : List (List ChatMsg) → Type 0
Nested [] = Unit
Nested (o ∷ os) = All (EndsWith o) os × Nested os

EndsWith-sent :
    (c : ChatMsg) (o : List ChatMsg) (os : List (List ChatMsg))
    → All (EndsWith o) os
    → All (EndsWith (o ++ c ∷ [])) (map (λ q. q ++ c ∷ []) os)
EndsWith-sent c o [] h = tt
EndsWith-sent c o (q ∷ os) ((front, e), h) =
    ((front, ap (λ t. t ++ c ∷ []) e ∙ append_assoc front q (c ∷ [])), EndsWith-sent c o os h)

Nested-sent :
    (c : ChatMsg) (os : List (List ChatMsg)) → Nested os → Nested (map (λ q. q ++ c ∷ []) os)
unfolding Nested
Nested-sent c [] h = tt
Nested-sent c (o ∷ os) (h, hs) = (EndsWith-sent c o os h, Nested-sent c os hs)

Nested-begun : (os : List (List ChatMsg)) → Nested os → Nested (os ++ [] ∷ [])
unfolding Nested
Nested-begun [] h = (tt, tt)
Nested-begun (o ∷ os) (h, hs) =
    (All-append (EndsWith o) os ([] ∷ []) h ((o, sym (append-nil o)), tt), Nested-begun os hs)

module _ {T V : Type 0} where
  abbrev pub owed_of : List (Prog T V) → List (List ChatMsg)
  owed_of ps = map (λ p. p.owed) ps

  -- One program in the place of another.
  pub put_in-All :
      (P : Prog T V → Type 0) (before : List (Prog T V)) (p q : Prog T V) (after : List (Prog T V))
      → (P p → P q)
      → All P (before ++ p ∷ after)
      → All P (before ++ q ∷ after)
  put_in-All P before p q after f h =
      let (k, ks) = All-append_right P before (p ∷ after) h in
      All-append P before (q ∷ after) (All-append_left P before (p ∷ after) h) (f k, ks)

  abbrev pub IsListed : Prog T V → Type 0
  IsListed p = p.listed ≡ true

module _ {A T V : Type 0} (widgets : Widgets A T V) where
  posted-listed : (l : Bool) (c : ChatMsg) (p : Prog T V) → (posted widgets l c p).listed ≡ p.listed
  posted-listed true c p = refl
  posted-listed false c p = refl

  send-IsListed :
      (c : ChatMsg) (ps : List (Prog T V)) → All IsListed ps → All IsListed (send widgets c ps)
  unfolding send
  send-IsListed c [] h = tt
  send-IsListed c (p ∷ ps) (h, hs) = (posted-listed p.listed c p ∙ h, send-IsListed c ps hs)

  handled-IsListed :
      (before : List (Prog T V)) (p : Prog T V) (after : List (Prog T V)) (x : Model T V × Effect)
      → All IsListed (before ++ p ∷ after)
      → All IsListed (handled widgets before p after x)
  handled-IsListed before p after (m, no_effect) h = put_in-All IsListed before p _ after (λ b. b) h
  handled-IsListed before p after (m, quits) h = put_in-All IsListed before p _ after (λ b. b) h
  handled-IsListed before p after (m, sends c) h =
      send-IsListed c _ (put_in-All IsListed before p (record p { model = m }) after (λ b. b) h)

  pub Step-IsListed :
      {ps qs : List (Prog T V)} → Step widgets ps qs → All IsListed ps → All IsListed qs
  unfolding program_handler
  Step-IsListed (begin user ps) h = All-append IsListed ps _ h (refl, tt)
  Step-IsListed (handle before p after m e own) h =
      handled-IsListed before p after (update widgets m p.model) h
  Step-IsListed (deliver before p after a b c e i) h =
      put_in-All IsListed before p _ after (λ k. k) h
  Step-IsListed (ignore before p after a b c e i) h =
      put_in-All IsListed before p _ after (λ k. k) h

  -- What the programs are owed.
  owed-put_in :
      (before : List (Prog T V)) (p q : Prog T V) (after : List (Prog T V))
      → q.owed ≡ p.owed
      → Nested (owed_of (before ++ p ∷ after))
      → Nested (owed_of (before ++ q ∷ after))
  owed-put_in before p q after e h =
      subst Nested
        (map-append (λ x. x.owed) before (p ∷ after)
          ∙ ap (λ o. owed_of before ++ o ∷ owed_of after) (sym e)
          ∙ sym (map-append (λ x. x.owed) before (q ∷ after)))
        h

  owed-send :
      (c : ChatMsg) (ps : List (Prog T V))
      → All IsListed ps
      → owed_of (send widgets c ps) ≡ map (λ o. o ++ c ∷ []) (owed_of ps)
  unfolding send
  owed-send c [] h = refl
  owed-send c (p ∷ ps) (h, hs) =
      ap (λ l. (posted widgets l c p).owed ∷ owed_of (send widgets c ps)) h
      ∙ ap (λ t. (p.owed ++ c ∷ []) ∷ t) (owed-send c ps hs)

  handled-Nested :
      (before : List (Prog T V)) (p : Prog T V) (after : List (Prog T V)) (x : Model T V × Effect)
      → All IsListed (before ++ p ∷ after)
      → Nested (owed_of (before ++ p ∷ after))
      → Nested (owed_of (handled widgets before p after x))
  handled-Nested before p after (m, no_effect) ls h =
      owed-put_in before p (record p { model = m }) after refl h
  handled-Nested before p after (m, quits) ls h =
      owed-put_in before p (record p { model = m; ended = true }) after refl h
  handled-Nested before p after (m, sends c) ls h =
      let ls' = put_in-All IsListed before p (record p { model = m }) after (λ b. b) ls in
      subst Nested (sym (owed-send c (before ++ record p { model = m } ∷ after) ls')) (
        Nested-sent c (owed_of (before ++ record p { model = m } ∷ after))
          (owed-put_in before p (record p { model = m }) after refl h))

  pub Step-Nested :
      {ps qs : List (Prog T V)}
      → Step widgets ps qs
      → All IsListed ps
      → Nested (owed_of ps)
      → Nested (owed_of qs)
  unfolding program_handler
  Step-Nested (begin user ps) ls h =
      subst Nested (sym (map-append (λ x. x.owed) ps _)) (Nested-begun (owed_of ps) h)
  Step-Nested (handle before p after m e own) ls h =
      handled-Nested before p after (update widgets m p.model) ls h
  Step-Nested (deliver before p after a b c e i) ls h = owed-put_in before p _ after refl h
  Step-Nested (ignore before p after a b c e i) ls h = owed-put_in before p _ after refl h
