-- ===== src/Examples/Chat/Conserved.antt =====
-- What becomes of the messages that are sent to the programs of the room.
use wish.Base.{
  ℕ, ◌+◌, Bytes, List, [], ◌∷◌, ◌++◌, map, Bool, true, false, if◌then◌else◌, ◌≡◌, refl, arith, ap,
  ◌∙◌, ◌⊎◌, inl, inr, All, All-append,
}
use wish.Examples.Chat.{
  ChatMsg, KeyCode, letter_c, esc, enter, other_code, Msg, key_msg, chat_msg, err_msg, other_msg,
  Widgets, Model, Effect, no_effect, quits, sends, initial_model, line_of, on_key, update, Prog,
  posted, Race, mislay, race, send, program_handler, handled, IsOwn, Step, begin, handle, deliver,
  ignore, Reach, empty, next,
}
use wish.Examples.Chat.Listed.{
  map-append, Nested, put_in-All, IsListed, owed_of, Step-IsListed, Step-Nested,
}

-- How many of the lines pass a test.
unfoldable pub count : (Bytes → Bool) → List Bytes → ℕ
count f [] = 0
count f (l ∷ ls) = (if f l then 1 else 0) + count f ls

count-append : (f : Bytes → Bool) (a b : List Bytes) → count f (a ++ b) ≡ count f a + count f b
unfolding count
count-append f [] b = omega arith
count-append f (l ∷ a) b = omega (arith, count-append f a b)

module _ {A T V : Type 0} (widgets : Widgets A T V) where
  abbrev pub lines : List ChatMsg → List Bytes
  lines cs = map (line_of widgets) cs

  -- A program that runs shows each line as often as it was sent to it, less what is on its way.
  abbrev pub Balanced : Prog T V → Type 0
  Balanced p =
      p.ended ≡ false
      → (f : Bytes → Bool)
      → count f p.model.messages + count f (lines p.inbox) ≡ count f (lines p.owed)

  on_key-messages :
      (ctrl : Bool) (k : KeyCode) (m : Model T V)
      → (on_key widgets ctrl k m).0.messages ≡ m.messages
  on_key-messages true letter_c m = refl
  on_key-messages true esc m = refl
  on_key-messages true enter m = refl
  on_key-messages true other_code m = refl
  on_key-messages false letter_c m = refl
  on_key-messages false esc m = refl
  on_key-messages false enter m = refl
  on_key-messages false other_code m = refl

  -- Only a message of the room changes what is shown.
  update-messages :
      (m : Msg A) (x : Model T V) → IsOwn widgets m → (update widgets m x).0.messages ≡ x.messages
  unfolding update
  update-messages (key_msg ctrl k) x own = on_key-messages ctrl k (record x {
    textarea = widgets.update_text (key_msg ctrl k) x.textarea;
    viewport = widgets.update_view (key_msg ctrl k) x.viewport;
  })
  update-messages (chat_msg c) x own = absurd (own c refl)
  update-messages (err_msg e) x own = refl
  update-messages (other_msg a) x own = refl

  count_line :
      (f : Bytes → Bool) (a b : List ChatMsg)
      → count f (lines (a ++ b)) ≡ count f (lines a) + count f (lines b)
  count_line f a b =
      ap (count f) (map-append (line_of widgets) a b) ∙ count-append f (lines a) (lines b)

  posted-Balanced :
      (l : Bool) (c : ChatMsg) (p : Prog T V) → Balanced p → Balanced (posted widgets l c p)
  posted-Balanced true c p h e f =
      omega (arith, h e f, count_line f p.inbox (c ∷ []), count_line f p.owed (c ∷ []))
  posted-Balanced false c p h e f = h e f

  send-Balanced :
      (c : ChatMsg) (ps : List (Prog T V)) → All Balanced ps → All Balanced (send widgets c ps)
  unfolding send
  send-Balanced c [] h = tt
  send-Balanced c (p ∷ ps) (h, hs) = (posted-Balanced p.listed c p h, send-Balanced c ps hs)

  handled-Balanced :
      (before : List (Prog T V)) (p : Prog T V) (after : List (Prog T V)) (x : Model T V × Effect)
      → x.0.messages ≡ p.model.messages
      → All Balanced (before ++ p ∷ after)
      → All Balanced (handled widgets before p after x)
  handled-Balanced before p after (m, no_effect) e h =
      put_in-All Balanced before p (record p { model = m }) after
        (λ b l f. ap (λ t. count f t + count f (lines p.inbox)) e ∙ b l f) h
  handled-Balanced before p after (m, quits) e h =
      put_in-All Balanced before p (record p { model = m; ended = true }) after
        (λ b l f. absurd (cc l)) h
  handled-Balanced before p after (m, sends c) e h =
      send-Balanced c (before ++ record p { model = m } ∷ after) (
        put_in-All Balanced before p (record p { model = m }) after
          (λ b l f. ap (λ t. count f t + count f (lines p.inbox)) e ∙ b l f) h)

  delivered-Balanced :
      (p : Prog T V) (a b : List ChatMsg) (c : ChatMsg)
      → p.inbox ≡ a ++ c ∷ b
      → Balanced p
      → Balanced (record p { model = (update widgets (chat_msg c) p.model).0; inbox = a ++ b })
  unfolding update
  delivered-Balanced p a b c e h l f = omega (
    arith,
    h l f,
    count-append f p.model.messages (line_of widgets c ∷ []),
    ap (λ x. count f (lines x)) e,
    count_line f a b,
    count_line f a (c ∷ b),
    count_line f (c ∷ []) b,
  )

  Step-Balanced : {ps qs : List (Prog T V)} → Step widgets ps qs → All Balanced ps → All Balanced qs
  unfolding program_handler initial_model count
  Step-Balanced (begin user ps) h = All-append Balanced ps _ h ((λ e f. refl), tt)
  Step-Balanced (handle before p after m e own) h =
      handled-Balanced before p after (update widgets m p.model) (update-messages m p.model own) h
  Step-Balanced (deliver before p after a b c e i) h =
      put_in-All Balanced before p _ after (delivered-Balanced p a b c i) h
  Step-Balanced (ignore before p after a b c e i) h =
      put_in-All Balanced before p _ after (λ k l f. absurd (cc (e, l))) h

  Race-Balanced : {ps qs : List (Prog T V)} → Race widgets ps qs → All Balanced ps → All Balanced qs
  Race-Balanced (mislay before p after l) h = put_in-All Balanced before p _ after (λ b. b) h

  -- In every state that the room can reach: a program that runs shows each line as often as it was sent to it, less
  -- the times that it is on its way. And where no sessions have begun at the same time, so that one's
  -- append to the list of programs came in the way of another's, every program is in the list, and what was
  -- sent to a program is the last part of what was sent to each one that began before it.
  pub Reach-Balanced :
      {raced : Bool} {ps : List (Prog T V)}
      → Reach widgets raced ps
      → All Balanced ps × ((raced ≡ true) ⊎ All IsListed ps × Nested (owed_of ps))
  unfolding Nested
  Reach-Balanced empty = (tt, inr (tt, tt))
  Reach-Balanced (next r s) =
      let (b, o) = Reach-Balanced r in
      (
        Step-Balanced s b,
        elim o [
          | inl e ↦ inl e
          | inr (ls, n) ↦ inr (Step-IsListed widgets s ls, Step-Nested widgets s ls n)
        ],
      )
  Reach-Balanced (race r s) = (Race-Balanced s (Reach-Balanced r).0, inl refl)
