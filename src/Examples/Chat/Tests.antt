-- ===== src/Examples/Chat/Tests.antt =====
-- A room of one program, to which two messages are sent; the second one gets through first.
use wish.Base.{Bytes, codes, List, [], ◌∷◌, true, false, none, refl, All, ◌≡◌, ◌⊎◌}
use wish.Examples.Chat.{
  ChatMsg, enter, Msg, key_msg, other_msg, Widgets, initial_model, update, Prog, send,
  program_handler, IsOwn, Reach, empty, next, begin, handle, deliver,
}
use wish.Examples.Chat.Listed.{IsListed, Nested, owed_of}
use wish.Examples.Chat.Conserved.{Balanced, Reach-Balanced}

-- The text area is its text; what is not a key replaces it.
abbrev typed : Msg Bytes → Bytes → Bytes
typed (other_msg a) t = a
typed m t = t

abbrev plain : Widgets Bytes Bytes Bytes
plain = record {
  update_text = typed;
  update_view = λ m v. v;
  value = λ t. t;
  reset = λ t. [];
  set_content = λ b v. b;
  goto_bottom = λ v. v;
  style = λ b. b;
  first_text = [];
  first_view = [];
}

abbrev said : Bytes → ChatMsg
said text = record { id = codes "ann"; text = text }

abbrev ann : List Bytes → Bytes → (inbox owed : List ChatMsg) → Prog Bytes Bytes
ann ls t inbox owed = record {
  model = record { viewport = []; messages = ls; id = codes "ann"; textarea = t; err = none };
  ended = false;
  inbox = inbox;
  owed = owed;
  listed = true;
}

IsOwn-text : (t : Bytes) → IsOwn plain (other_msg t)
IsOwn-text t c e = cc e

IsOwn-enter : IsOwn plain (key_msg false enter)
IsOwn-enter c e = cc e

begun : Reach plain false (ann [] [] [] [] ∷ [])
unfolding program_handler initial_model
begun = next empty (begin (codes "ann") [])

-- A text is typed and sent.
one_sent : Reach plain false (ann [] [] (said (codes "x") ∷ []) (said (codes "x") ∷ []) ∷ [])
unfolding update send
one_sent =
    next
      (next begun
        (handle [] (ann [] [] [] []) [] (other_msg (codes "x")) refl (IsOwn-text (codes "x"))))
      (handle [] (ann [] (codes "x") [] []) [] (key_msg false enter) refl IsOwn-enter)

abbrev both : List ChatMsg
both = said (codes "x") ∷ said (codes "y") ∷ []

two_sent : Reach plain false (ann [] [] both both ∷ [])
unfolding update send
two_sent =
    next
      (next one_sent (
        handle [] (ann [] [] (said (codes "x") ∷ []) (said (codes "x") ∷ [])) []
          (other_msg (codes "y")) refl (IsOwn-text (codes "y"))))
      (handle [] (ann [] (codes "y") (said (codes "x") ∷ []) (said (codes "x") ∷ [])) []
        (key_msg false enter) refl IsOwn-enter)

-- The lines stand in the other order.
abbrev swapped : Prog Bytes Bytes
swapped = record {
  model = record {
    viewport = codes "ann: y\nann: x";
    messages = codes "ann: y" ∷ codes "ann: x" ∷ [];
    id = codes "ann";
    textarea = [];
    err = none;
  };
  ended = false;
  inbox = [];
  owed = both;
  listed = true;
}

swapped-Reach : Reach plain false (swapped ∷ [])
unfolding update
swapped-Reach =
    next
      (next two_sent (
        deliver [] (ann [] [] both both) [] (said (codes "x") ∷ []) [] (said (codes "y")) refl
          refl))
      (deliver []
        (record {
          model = record {
            viewport = codes "ann: y";
            messages = codes "ann: y" ∷ [];
            id = codes "ann";
            textarea = [];
            err = none;
          };
          ended = false;
          inbox = said (codes "x") ∷ [];
          owed = both;
          listed = true;
        })
        [] [] [] (said (codes "x")) refl refl)

Reach-Balanced_example :
    All (Balanced plain) (swapped ∷ [])
    × ((false ≡ true) ⊎ All IsListed (swapped ∷ []) × Nested (owed_of (swapped ∷ [])))
Reach-Balanced_example = Reach-Balanced plain swapped-Reach
