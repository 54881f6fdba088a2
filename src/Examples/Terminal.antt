-- ===== src/Examples/Terminal.antt =====
-- examples/bubbletea/main.go: a program that shows the terminal of its session. `update` is the `Update` of its model;
-- the changes of the window come from the goroutine of `Bubbletea.Watch`.
pub mod Current
pub mod Tests
use wish.Base.{
  ℕ, Bytes, bytes_eq, codes, List, [], ◌∷◌, ◌++◌, Bool, true, false, ◌||◌, Option, none, some,
  if◌then◌else◌,
}
use wish.Session.{Session, Pty}
use wish.Bubbletea.Watch.{Size}

-- `tea.Msg`, as far as `Update` tells messages apart
pub data Msg (A : Type 0) : Type 0 where
  color_profile : Bytes → Msg A
  background_color : (is_dark : Bool) → Msg A
  window_size : Size → Msg A
  key_msg : Bytes → Msg A
  other_msg : A → Msg A

-- The styles of the model never change.
pub record Model : Type 0 where
  pub term : Bytes
  pub profile : Bytes
  pub width : ℕ
  pub height : ℕ
  pub bg : Bytes

-- A session without a terminal has the zero `Pty`.
abbrev pub model_of : Option Pty → Model
model_of none = record { term = []; profile = []; width = 0; height = 0; bg = codes "light" }
model_of (some p) = record {
  term = p.term;
  profile = [];
  width = p.width;
  height = p.height;
  bg = codes "light";
}

-- `teaHandler`
unfoldable pub tea_handler : Session → Model
tea_handler s = model_of s.pty

module _ {A : Type 0} where
  -- The model, and whether the command is `tea.Quit`
  unfoldable pub update : Msg A → Model → Model × Bool
  update (color_profile p) m = (record m { profile = p }, false)
  update (background_color true) m = (record m { bg = codes "dark" }, false)
  update (background_color false) m = (m, false)
  update (window_size x) m = (record m { width = x.width; height = x.height }, false)
  update (key_msg k) m = (m, bytes_eq k (codes "q") || bytes_eq k (codes "ctrl+c"))
  update (other_msg a) m = (m, false)

  -- What a program does with its messages: `Update` for one after the other, to the end or to the first that quits.
  unfoldable pub run_updates : List (Msg A) → Model → Model × Bool
  unfolding update
  run_updates [] m = (m, false)
  run_updates (x ∷ xs) m =
      let rest = run_updates xs (update x m).0 in
      if (update x m).1 then ((update x m).0, true) else rest

-- `View`, before its styles; `decimal` is how a number is printed.
unfoldable pub view_text : (decimal : ℕ → Bytes) → Model → Bytes
view_text decimal m =
    codes "Your term is "
    ++ m.term
    ++ codes "\nYour window size is "
    ++ decimal m.width
    ++ codes "x"
    ++ decimal m.height
    ++ codes "\nBackground: "
    ++ m.bg
    ++ codes "\nColor Profile: "
    ++ m.profile
