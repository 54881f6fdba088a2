-- ===== src/Bubbletea/Wired.antt =====
-- What a program is wired to, whatever options the application brings.
use wish.Base.{
  Bytes, List, [], ◌∷◌, ◌++◌, Bool, true, false, Option, none, some, ◌≡◌, ◌≢◌, refl, ◌∙◌,
}
use wish.Session.{Pty}
use wish.Bubbletea.{
  Io, session_io, slave_io, Msg, suspend_msg, resume_msg, other_msg, ProgramOption, with_input,
  with_output, with_environment, with_color_profile, with_window_size, with_filter, own, Terminal,
  filter, env_of, opts_at, make_opts, make_options, default_program,
}

-- What the options set, an option that stands later in place of an earlier one.
pub record Wiring (A : Type 0) : Type 0 where
  pub input : Option Io
  pub output : Option Io
  pub environment : Option (List Bytes)
  pub filtered : Option (Msg A → Msg A)

module _ {A P O : Type 0} where
  abbrev pub set : ProgramOption A P O → Wiring A → Wiring A
  set (with_input i) w = record w { input = some i }
  set (with_output o) w = record w { output = some o }
  set (with_environment e) w = record w { environment = some e }
  set (with_filter f) w = record w { filtered = some f }
  set (with_color_profile p) w = w
  set (with_window_size x y) w = w
  set (own o) w = w

  abbrev pub wiring : List (ProgramOption A P O) → Wiring A → Wiring A
  wiring [] w = w
  wiring (o ∷ os) w = wiring os (set o w)

  wiring-append :
      (os ps : List (ProgramOption A P O)) (w : Wiring A)
      → wiring (os ++ ps) w ≡ wiring ps (wiring os w)
  wiring-append [] ps w = refl
  wiring-append (o ∷ os) ps w = wiring-append os ps (set o w)

-- The slave of the terminal where there is one that is not emulated, or else the session.
abbrev pub io_for : Option Pty → Bool → Io
io_for none emulated = session_io
io_for (some p) true = session_io
io_for (some p) false = slave_io

abbrev pub wired_for : {A : Type 0} → Option Pty → List Bytes → Bool → Wiring A
wired_for pty envs emulated = record {
  input = some (io_for pty emulated);
  output = some (io_for pty emulated);
  environment = some (env_of pty envs);
  filtered = some filter;
}

module _ {A P : Type 0} (color_env : List Bytes → P) where
  opts_at-wiring :
      (O : Type 0) (pty : Option Pty) (envs : List Bytes) (emulated : Bool) (w : Wiring A)
      → wiring (opts_at {O = O} color_env pty envs emulated ++ with_filter filter ∷ []) w
        ≡ wired_for pty envs emulated
  opts_at-wiring O none envs emulated w = refl
  opts_at-wiring O (some p) envs true w = refl
  opts_at-wiring O (some p) envs false w = refl

module _ {A P O : Type 0} (color_env : List Bytes → P) where
  make_options-wiring :
      (own_options : List (ProgramOption A P O)) (t : Terminal) (w : Wiring A)
      → wiring (own_options ++ make_options color_env t) w
        ≡ wired_for t.pty t.environ t.emulated_pty
  unfolding make_options make_opts
  make_options-wiring os t w =
      wiring-append os (make_options color_env t) w
      ∙ opts_at-wiring color_env O t.pty t.environ t.emulated_pty (wiring os w)

  -- The program that the default handler makes of a model that is not nil gets options with which it reads and
  -- writes the slave of the session's terminal, or the session where there is none or an emulated one; its
  -- environment is the session's, with TERM where there is a terminal; and its filter is the one of `MakeOptions`:
  -- whatever options the application brings, an option that stands later taking the place of an earlier one.
  pub default_program-wiring :
      {M G : Type 0} (new_program : M → List (ProgramOption A P O) → G) (m : M)
      (own_options : List (ProgramOption A P O)) (t : Terminal)
      → (all : List (ProgramOption A P O)) × (default_program color_env new_program t
            (some m, own_options)
          ≡ some (new_program m all))
        × ((w : Wiring A) → wiring all w ≡ wired_for t.pty t.environ t.emulated_pty)
  default_program-wiring new_program m os t =
      (os ++ make_options color_env t, refl, make_options-wiring os t)

-- That filter hands no message to suspend on to the program.
pub filter-no_suspend : {A : Type 0} (m : Msg A) → filter m ≢ suspend_msg
unfolding filter
filter-no_suspend suspend_msg e = cc
filter-no_suspend resume_msg e = cc
filter-no_suspend (other_msg a) e = cc
