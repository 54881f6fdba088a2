-- ===== src/Examples/Terminal/Tests.antt =====
-- A window that is changed once, while the program learns its colors.
use wish.Base.{ℕ, codes, List, [], ◌∷◌, some, ◌≡◌, refl, bytes_eq}
use wish.Session.{Session, Pty}
use wish.Middleware.Tests.{visiting}
use wish.Bubbletea.Watch.{Size, System, Reach, here, next, resize, move, send, start}
use wish.Examples.Terminal.{
  Msg, color_profile, window_size, key_msg, tea_handler, update, run_updates,
}
use wish.Examples.Terminal.Current.{size_of, last_size, run_updates-Current}

abbrev wider : Size
wider = record { width = 132; height = 50 }

abbrev vt : Pty
vt = record { term = codes "vt220"; width = 80; height = 24 }

abbrev on_vt : Session
on_vt = record visiting { pty = some vt }

abbrev changed : System
changed = record start { changes = wider ∷ []; resized = wider ∷ [] }

abbrev told : System
told = record start { sent = wider ∷ []; resized = wider ∷ [] }

told-Reach : Reach told
told-Reach = next (next here (resize wider refl)) (move (send wider [] refl refl))

abbrev messages : List (Msg ℕ)
messages = color_profile (codes "TrueColor") ∷ window_size wider ∷ key_msg (codes "x") ∷ []

run_updates-Current_example :
    size_of (run_updates messages (tea_handler on_vt)).0
    ≡ last_size (record { width = 80; height = 24 }) told.resized
unfolding run_updates update bytes_eq
run_updates-Current_example =
    run_updates-Current on_vt vt told messages refl told-Reach refl refl refl refl refl
