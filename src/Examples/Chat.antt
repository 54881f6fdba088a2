-- ===== src/Examples/Chat.antt =====
-- examples/multichat/main.go: a chat room. The model of each program is `Update`, the room is the list
-- of programs, and each message is sent to every program by a goroutine of its own (`go p.Send`), so that
-- it arrives at any time. The text area and the viewport are those of another package, as parameters.
pub mod Listed
pub mod Conserved
pub mod Tests
use wish.Base.{
  ℕ, Bytes, codes, List, [], ◌∷◌, ◌++◌, Bool, true, false, Option, none, some, ◌≡◌, map,
}

pub record ChatMsg : Type 0 where
  pub id : Bytes
  pub text : Bytes

pub data KeyCode : Type 0 where
  letter_c esc enter other_code : KeyCode

-- `tea.Msg`, as far as `Update` tells messages apart; `ctrl` says whether the modifiers are just ctrl.
pub data Msg (A : Type 0) : Type 0 where
  key_msg : (ctrl : Bool) → KeyCode → Msg A
  chat_msg : ChatMsg → Msg A
  err_msg : Bytes → Msg A
  other_msg : A → Msg A

-- The text area `T` and the viewport `V`, and what the style makes of a name.
pub record Widgets (A T V : Type 0) : Type 0 where
  pub update_text : Msg A → T → T
  pub update_view : Msg A → V → V
  pub value : T → Bytes
  pub reset : T → T
  pub set_content : Bytes → V → V
  pub goto_bottom : V → V
  pub style : Bytes → Bytes
  pub first_text : T
  pub first_view : V

pub record Model (T V : Type 0) : Type 0 where
  pub viewport : V
  pub messages : List Bytes
  pub id : Bytes
  pub textarea : T
  pub err : Option Bytes

-- What `Update` sets off: a message to all, the end of the program, or nothing but what the widgets do.
pub data Effect : Type 0 where
  no_effect quits : Effect
  sends : ChatMsg → Effect

-- `strings.Join(lines, "\n")`
abbrev pub behind_newline : List Bytes → Bytes
behind_newline [] = []
behind_newline (l ∷ ls) = 10 ∷ (l ++ behind_newline ls)

abbrev pub join_lines : List Bytes → Bytes
join_lines [] = []
join_lines (l ∷ ls) = l ++ behind_newline ls

module _ {A T V : Type 0} (widgets : Widgets A T V) where
  -- `initialModel`, with the name that `ProgramHandler` sets
  unfoldable pub initial_model : Bytes → Model T V
  initial_model user = record {
    viewport = widgets.first_view;
    messages = [];
    id = user;
    textarea = widgets.first_text;
    err = none;
  }

  abbrev pub line_of : ChatMsg → Bytes
  line_of c = widgets.style c.id ++ codes ": " ++ c.text

  abbrev pub sent_by : Model T V → ChatMsg
  sent_by m = record { id = m.id; text = widgets.value m.textarea }

  -- The second `switch` of a key, on its code.
  abbrev pub on_code : KeyCode → Model T V → Model T V × Effect
  on_code esc m = (m, quits)
  on_code enter m = (record m { textarea = widgets.reset m.textarea }, sends (sent_by m))
  on_code letter_c m = (m, no_effect)
  on_code other_code m = (m, no_effect)

  abbrev pub on_key : Bool → KeyCode → Model T V → Model T V × Effect
  on_key true letter_c m = (m, quits)
  on_key true esc m = on_code esc m
  on_key true enter m = on_code enter m
  on_key true other_code m = on_code other_code m
  on_key false k m = on_code k m

  abbrev pub shown : List Bytes → Model T V → Model T V
  shown ls m = record m {
    messages = ls;
    viewport = widgets.goto_bottom (widgets.set_content (join_lines ls) m.viewport);
  }

  abbrev pub on_msg : Msg A → Model T V → Model T V × Effect
  on_msg (key_msg ctrl k) m = on_key ctrl k m
  on_msg (chat_msg c) m = (shown (m.messages ++ line_of c ∷ []) m, no_effect)
  on_msg (err_msg e) m = (record m { err = some e }, no_effect)
  on_msg (other_msg a) m = (m, no_effect)

  -- `Update`
  unfoldable pub update : Msg A → Model T V → Model T V × Effect
  update msg m = on_msg msg (record m {
    textarea = widgets.update_text msg m.textarea;
    viewport = widgets.update_view msg m.viewport;
  })

-- A program of the room: its model, whether it has ended, what is on its way to it, and whether the list of
-- programs has it. `owed` is all that has been sent to it, and is looked at by no step.
pub record Prog (T V : Type 0) : Type 0 where
  pub model : Model T V
  pub ended : Bool
  pub inbox : List ChatMsg
  pub owed : List ChatMsg
  pub listed : Bool

module _ {A T V : Type 0} (widgets : Widgets A T V) where
  abbrev pub Room : Type 0
  Room = List (Prog T V)

  abbrev pub posted : Bool → ChatMsg → Prog T V → Prog T V
  posted true c p = record p { inbox = p.inbox ++ c ∷ []; owed = p.owed ++ c ∷ [] }
  posted false c p = p

  abbrev pub post : ChatMsg → Prog T V → Prog T V
  post c p = posted p.listed c p

  -- `send`: to every program of the list, those that have ended too.
  unfoldable pub send : ChatMsg → Room → Room
  send c ps = map (post c) ps

  -- `ProgramHandler`
  unfoldable pub program_handler : Bytes → Room → Room
  unfolding initial_model
  program_handler user ps =
      ps
      ++ record {
        model = initial_model widgets user;
        ended = false;
        inbox = [];
        owed = [];
        listed = true;
      }
        ∷ []

  abbrev pub handled : Room → Prog T V → Room → Model T V × Effect → Room
  handled before p after (m, no_effect) = before ++ record p { model = m } ∷ after
  handled before p after (m, quits) = before ++ record p { model = m; ended = true } ∷ after
  handled before p after (m, sends c) = send c (before ++ record p { model = m } ∷ after)

  abbrev pub IsOwn : Msg A → Type 0
  IsOwn m = (c : ChatMsg) → m ≡ chat_msg c → ⊥

  -- A session begins; a running program handles a message of its own, a key for one; or one of the goroutines gets its
  -- message through: to a running program, which shows it, or to one that has ended, which does nothing.
  pub data Step : Room → Room → Type 0 where
    begin : (user : Bytes) (ps : Room) → Step ps (program_handler user ps)
    handle :
        (before : Room) (p : Prog T V) (after : Room) (m : Msg A)
        → p.ended ≡ false
        → IsOwn m
        → Step (before ++ p ∷ after) (handled before p after (update widgets m p.model))
    deliver :
        (before : Room) (p : Prog T V) (after : Room) (a b : List ChatMsg) (c : ChatMsg)
        → p.ended ≡ false
        → p.inbox ≡ a ++ c ∷ b
        → Step (before ++ p ∷ after) (
            before
            ++ record p { model = (update widgets (chat_msg c) p.model).0; inbox = a ++ b } ∷ after)
    ignore :
        (before : Room) (p : Prog T V) (after : Room) (a b : List ChatMsg) (c : ChatMsg)
        → p.ended ≡ true
        → p.inbox ≡ a ++ c ∷ b
        → Step (before ++ p ∷ after) (before ++ record p { inbox = a ++ b } ∷ after)

  -- Sessions that begin at the same time append to the list without a lock: each puts back what it has read
  -- with its own program at the end. A program that another one has put there may be lost, and one that was lost be put
  -- back. That another goroutine reads the slice half written is not modelled.
  pub data Race : Room → Room → Type 0 where
    mislay :
        (before : Room) (p : Prog T V) (after : Room) (l : Bool)
        → Race (before ++ p ∷ after) (before ++ record p { listed = l } ∷ after)

  -- The states that can be reached, by whether appends have come in each other's way.
  pub data Reach : Bool → Room → Type 0 where
    empty : Reach false []
    next : {raced : Bool} {ps qs : Room} → Reach raced ps → Step ps qs → Reach raced qs
    race : {raced : Bool} {ps qs : Room} → Reach raced ps → Race ps qs → Reach true qs
