-- ===== src/Bubbletea/Tests.antt =====
-- Programs for a terminal, and a session that the client leaves.
use wish.Base.{ℕ, ◌+◌, ◌≤◌, codes, List, [], ◌∷◌, true, some, length, ◌≡◌, refl, ◌⊎◌}
use wish.Session.{Pty}
use wish.Bubbletea.{default_program, ProgramOption, with_filter, own, Terminal}
use wish.Bubbletea.Wired.{Wiring, wiring, wired_for, default_program-wiring}
use wish.Bubbletea.Watch.{
  Size, System, Reach, here, next, resize, close, leave, move, send, send_zero, start, zero_size,
}
use wish.Bubbletea.Watch.Order.{Inv, Reach-Inv}
use wish.Bubbletea.Watch.Ends.{stop, onward, CanEnd, watch_ends}

abbrev xterm : Pty
xterm = record { term = codes "xterm"; width = 80; height = 24 }

abbrev emulated : Terminal
emulated = record { pty = some xterm; environ = codes "A=b" ∷ []; emulated_pty = true }

abbrev own_options : List (ProgramOption ℕ ℕ ℕ)
own_options = own 3 ∷ with_filter (λ m. m) ∷ []

-- What a program is made of.
abbrev as_pair : ℕ → List (ProgramOption ℕ ℕ ℕ) → ℕ × List (ProgramOption ℕ ℕ ℕ)
as_pair m os = (m, os)

default_program-wiring_example :
    (all : List (ProgramOption ℕ ℕ ℕ)) × (default_program
        (λ e. length e)
        as_pair
        emulated
        (some 4, own_options)
      ≡ some (4, all))
    × ((w : Wiring ℕ) → wiring all w ≡ wired_for (some xterm) (codes "A=b" ∷ []) true)
default_program-wiring_example =
    default_program-wiring (λ e. length e) as_pair 4 own_options emulated

abbrev wide : Size
wide = record { width = 120; height = 40 }

-- The client changes the window twice and leaves before the goroutine has looked.
abbrev left_early : System
left_early = record start { changes = wide ∷ wide ∷ []; resized = wide ∷ wide ∷ []; done = true }

left_early_reached : Reach left_early
left_early_reached = next (next (next here (resize wide refl)) (resize wide refl)) leave

abbrev one_sent : System
one_sent = record left_early { changes = wide ∷ []; sent = wide ∷ [] }

-- The client changes the window once, the channel is closed, and the goroutine picks twice.
abbrev behind_close : System
behind_close = record start { closed = true; sent = wide ∷ zero_size ∷ []; resized = wide ∷ [] }

behind_close_reached : Reach behind_close
behind_close_reached =
    next (next (next (next here (resize wide refl)) close) (move (send wide [] refl refl)))
      (move (send_zero refl refl refl))

Reach-Inv_example : Inv behind_close
Reach-Inv_example = Reach-Inv behind_close_reached

watch_ends_example :
    ((left_early.closed ≡ true) ⊎ (1 ≤ length left_early.changes + 1)) × CanEnd one_sent
watch_ends_example =
    watch_ends left_early_reached refl (onward stop (send wide (wide ∷ []) refl refl))
