-- ===== src/Scp/Info/Flags.antt =====
-- What `GetInfo` reads in a command line of flags and a path.
use wish.Base.{
  Bytes, List, [], ◌∷◌, ◌++◌, Bool, true, false, ◌||◌, bytes_eq, ◌≡◌, ◌≢◌, refl, ◌∙◌, ap, sym, All,
  Bool-cases, inl, inr,
}
use wish.Scp.Info.{
  Op, unset, copy_to_client, copy_from_client, Info, no_info, flag_r, flag_f, flag_t, scp_name,
  get_info_loop, get_info,
}

-- Whether "-r" is among the flags.
abbrev pub has_r : List Bytes → Bool
has_r [] = false
has_r (x ∷ xs) = bytes_eq x flag_r || has_r xs

-- A flag that is neither "-f" nor "-t".
pub record Other (x : Bytes) : Type 0 where
  pub not_f : bytes_eq x flag_f ≡ false
  pub not_t : bytes_eq x flag_t ≡ false

-- The flag and the operation of a direction.
abbrev pub flag_of : Op → Bytes
flag_of copy_to_client = flag_f
flag_of copy_from_client = flag_t
flag_of unset = flag_r

or_false : (a : Bool) → a ≡ (a || false)
or_false true = refl
or_false false = refl

or_true : (a b : Bool) → (true || b) ≡ (a || (true || b))
or_true true b = refl
or_true false b = refl

abbrev read_as : Op → Bytes → Bool → Info
read_as o p r = record { ok = true; recursive = r; path = p; op = o }

last_two :
    (o : Op) (p : Bytes) (info : Info)
    → o ≢ unset
    → Other p
    → bytes_eq p flag_r ≡ false
    → get_info_loop (flag_of o ∷ p ∷ []) info
      ≡ record { ok = true; recursive = info.recursive; path = p; op = o }
unfolding get_info_loop bytes_eq
last_two unset p info n k r = absurd (n refl)
last_two copy_to_client p info n k r = rw (r, k.not_f, k.not_t) refl
last_two copy_from_client p info n k r = rw (r, k.not_f, k.not_t) refl

one_flag_r :
    (x : Bytes) (xs : List Bytes) (info : Info)
    → bytes_eq x flag_r ≡ true
    → get_info_loop (x ∷ xs) info ≡ get_info_loop xs (record info { recursive = true })
unfolding get_info_loop
one_flag_r x xs info e = rw e refl

no_flag :
    (x : Bytes) (xs : List Bytes) (info : Info)
    → bytes_eq x flag_r ≡ false
    → Other x
    → get_info_loop (x ∷ xs) info ≡ get_info_loop xs info
unfolding get_info_loop
no_flag x xs info e g = rw (e, g.not_f, g.not_t) refl

flags_read :
    (o : Op) (p : Bytes) (xs : List Bytes) (info : Info)
    → o ≢ unset
    → Other p
    → bytes_eq p flag_r ≡ false
    → All Other xs
    → get_info_loop (xs ++ flag_of o ∷ p ∷ []) info ≡ read_as o p (info.recursive || has_r xs)
flags_read o p [] info n k r h =
    last_two o p info n k r ∙ ap (read_as o p) (or_false info.recursive)
flags_read o p (x ∷ xs) info n k r (g, h) = elim (Bool-cases (bytes_eq x flag_r)) [
  | inl e ↦
      one_flag_r x (xs ++ flag_of o ∷ p ∷ []) info e
      ∙ flags_read o p xs (record info { recursive = true }) n k r h
      ∙ ap (read_as o p)
          (or_true info.recursive (has_r xs) ∙ ap (λ b. info.recursive || (b || has_r xs)) (sym e))
  | inr e ↦
      no_flag x (xs ++ flag_of o ∷ p ∷ []) info e g
      ∙ flags_read o p xs info n k r h
      ∙ ap (λ b. read_as o p (info.recursive || (b || has_r xs))) (sym e)
]

-- The command scp with flags, then "-f" or "-t" and a path that is none of the three flags is read as that
-- operation on that path, recursive exactly if "-r" is among the flags in front; other flags are passed
-- over.
pub get_info-flags :
    (o : Op) (xs : List Bytes) (p : Bytes)
    → o ≢ unset
    → All Other xs
    → Other p
    → bytes_eq p flag_r ≡ false
    → get_info (scp_name ∷ xs ++ flag_of o ∷ p ∷ [])
      ≡ record { ok = true; recursive = has_r xs; path = p; op = o }
unfolding get_info bytes_eq
get_info-flags o xs p n h k r =
    no_flag scp_name (xs ++ flag_of o ∷ p ∷ []) no_info refl (record { not_f = refl; not_t = refl })
    ∙ flags_read o p xs no_info n k r h
