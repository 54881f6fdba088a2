-- ===== src/Bubbletea.antt =====
-- Package bubbletea: the options with which a program is made for a session, and the middleware that
-- runs it (bubbletea/tea.go, tea_unix.go, tea_other.go). Programs and models are those of another
-- library, as parameters.
pub mod Wired
pub mod Watch
pub mod Tests
use wish.Base.{
  ℕ, ◌+◌, Bytes, codes, List, [], ◌∷◌, ◌++◌, Bool, true, false, Option, none, some, if◌then◌else◌,
}
use wish.Session.{
  Pty, Session, Event, log, World, Ran, Action, Handler, Middleware, and_then, ◌>>◌, emit, nothing,
  fatalln,
}

-- What a program reads and writes: the session, or the slave of the terminal that was allocated for it.
pub data Io : Type 0 where
  session_io slave_io : Io

-- The messages that the filter tells apart.
pub data Msg (A : Type 0) : Type 0 where
  suspend_msg resume_msg : Msg A
  other_msg : A → Msg A

-- `tea.ProgramOption`; `own` is one that the application brings.
pub data ProgramOption (A P O : Type 0) : Type 0 where
  with_input with_output : Io → ProgramOption A P O
  with_environment : List Bytes → ProgramOption A P O
  with_color_profile : P → ProgramOption A P O
  with_window_size : (width height : ℕ) → ProgramOption A P O
  with_filter : (Msg A → Msg A) → ProgramOption A P O
  own : O → ProgramOption A P O

-- What the options look at of a session; an emulated terminal has no slave.
pub record Terminal : Type 0 where
  pub pty : Option Pty
  pub environ : List Bytes
  pub emulated_pty : Bool

unfoldable pub filter : {A : Type 0} → Msg A → Msg A
filter suspend_msg = resume_msg
filter resume_msg = resume_msg
filter (other_msg m) = other_msg m

abbrev pub term_of : Pty → Bytes
term_of p = codes "TERM=" ++ p.term

abbrev pub env_of : Option Pty → List Bytes → List Bytes
env_of none envs = envs
env_of (some p) envs = envs ++ term_of p ∷ []

-- `color_env` is `colorprofile.Env`.
module _ {A P O : Type 0} (color_env : List Bytes → P) where
  abbrev pub opts_with : Pty → List Bytes → Bool → List (ProgramOption A P O)
  opts_with p envs true =
      with_input session_io
      ∷ with_output session_io
      ∷ with_color_profile (color_env envs)
      ∷ with_environment envs
      ∷ with_window_size p.width p.height
      ∷ []
  opts_with p envs false =
      with_input slave_io
      ∷ with_output slave_io
      ∷ with_environment envs
      ∷ with_window_size p.width p.height
      ∷ []

  abbrev pub opts_at : Option Pty → List Bytes → Bool → List (ProgramOption A P O)
  opts_at none envs emulated =
      with_input session_io ∷ with_output session_io ∷ with_environment envs ∷ []
  opts_at (some p) envs emulated = opts_with p (envs ++ term_of p ∷ []) emulated

  -- `makeOpts` of tea_unix.go
  unfoldable pub make_opts : Terminal → List (ProgramOption A P O)
  make_opts t = opts_at t.pty t.environ t.emulated_pty

  -- `MakeOptions`
  unfoldable pub make_options : Terminal → List (ProgramOption A P O)
  unfolding make_opts filter
  make_options t = make_opts t ++ with_filter filter ∷ []

  -- `newDefaultProgramHandler`: what the handler of the application returns, a model or nil and
  -- its options, becomes a program or nil; `new_program` is `tea.NewProgram`.
  abbrev pub default_program :
      {M G : Type 0}
      → (M → List (ProgramOption A P O) → G)
      → Terminal
      → Option M × List (ProgramOption A P O)
      → Option G
  default_program new_program t (none, opts) = none
  default_program new_program t (some m, opts) = some (new_program m (opts ++ make_options t))

module _ {A P O : Type 0} where
  abbrev pub size_of : Option Pty → ProgramOption A P O
  size_of none = with_window_size 0 0
  size_of (some p) = with_window_size p.width p.height

  -- `makeOpts` of tea_other.go, for the systems without such terminals
  unfoldable pub make_opts_other : Terminal → List (ProgramOption A P O)
  make_opts_other t =
      with_input session_io
      ∷ with_output session_io
      ∷ with_environment (env_of t.pty t.environ)
      ∷ size_of t.pty
      ∷ []

-- A program, as far as the middleware runs it: `Run`, with the error that it returns, if any, and
-- `Kill`.
pub record Program (S : Type 0) : Type 0 where
  pub run : World S → World S × Option Bytes
  pub kill : World S → World S

module _ {S : Type 0} (exit_text : Bytes → Bytes) where
  abbrev pub logged : World S × Option Bytes → World S
  logged (w, none) = w
  logged (w, some e) = record w { events = w.events ++ log (exit_text e) ∷ [] }

  abbrev pub run_in : Option Pty → Program S → Action S → Action S
  run_in none program next w = fatalln (codes "no active terminal, skipping") w
  run_in (some p) program next w = next (program.kill (logged (program.run w)))

  abbrev pub if_program : Option (Program S) → Option Pty → Action S → Action S
  if_program none pty next = next
  if_program (some program) pty next = run_in pty program next

  -- `MiddlewareWithProgramHandler`. What runs beside the program is in `Watch`.
  unfoldable pub middleware_with_program_handler : (Session → Option (Program S)) → Middleware S
  unfolding fatalln
  middleware_with_program_handler handler next s = if_program (handler s) s.pty (next s)
