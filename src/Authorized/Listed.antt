-- ===== src/Authorized/Listed.antt =====
-- Who is let in by a file of keys.
use wish.Base.{
  Bytes, List, [], ◌∷◌, ◌++◌, Bool, true, false, Option, some, bytes_eq, bytes_eq_iff, All, ◌≡◌,
  ◌↔◌, ◌⊎◌, refl, inl, inr, Bool-cases, Option-cases, ap,
}
use wish.Authorized.{
  Ending, Reads, is_skipped, at_eof, broken_off, is_admitted, check_lines, is_authorized, Ssh,
  signed_by, trusted_user_ca_keys,
}

module _ {K : Type 0} (parse : Bytes → Option K) (checker : K → Bool) where
  -- A line that is neither passed over nor wrong, with the answer of the checker for its key.
  abbrev pub Answered : Bool → Bytes → Type 0
  Answered b l = (is_skipped l ≡ false) × (k : K) × (parse l ≡ some k) × (checker k ≡ b)

  -- A line that the loop goes past.
  abbrev pub Passed : Bytes → Type 0
  Passed l = (is_skipped l ≡ true) ⊎ Answered false l

  -- A line of the file has a key that the checker accepts, and no line before it is wrong.
  abbrev pub Admitted : List Bytes → Type 0
  Admitted ls =
      (before : List Bytes) × (l : Bytes) × (after : List Bytes) × (ls ≡ before ++ l ∷ after)
      × All Passed before
      × Answered true l

  Admitted-cons : (l : Bytes) (ls : List Bytes) → Passed l → Admitted ls → Admitted (l ∷ ls)
  Admitted-cons l ls p (before, m, after, e, q, a) =
      (l ∷ before, m, after, ap (λ x. l ∷ x) e, (p, q), a)

  check_lines-Admitted :
      (ls : List Bytes) (e : Ending)
      → is_admitted (check_lines parse checker ls e) ≡ true
      → Admitted ls
  unfolding check_lines
  check_lines-Admitted [] at_eof h = absurd (cc h)
  check_lines-Admitted [] broken_off h = absurd (cc h)
  check_lines-Admitted (l ∷ ls) e h = elim (Bool-cases (is_skipped l)) [
    | inl s ↦ Admitted-cons l ls (inl s) (check_lines-Admitted ls e (rw s at h))
    | inr s ↦ elim (Option-cases (parse l)) [
      | inl n ↦ absurd (cc (rw (s, n) at h))
      | inr (k, p) ↦ elim (Bool-cases (checker k)) [
        | inl c ↦ ([], l, ls, refl, tt, (s, k, p, c))
        | inr c ↦
            Admitted-cons l ls (inr (s, k, p, c)) (check_lines-Admitted ls e (rw (s, p, c) at h))
      ]
    ]
  ]

  Admitted-check_lines :
      (before : List Bytes) (l : Bytes) (after : List Bytes) (e : Ending)
      → All Passed before
      → Answered true l
      → is_admitted (check_lines parse checker (before ++ l ∷ after) e) ≡ true
  unfolding check_lines
  Admitted-check_lines [] l after e q (s, k, p, c) = rw (s, p, c) refl
  Admitted-check_lines (m ∷ before) l after e (inl s, q) a =
      rw s (Admitted-check_lines before l after e q a)
  Admitted-check_lines (m ∷ before) l after e (inr (s, k, p, c), q) a =
      rw (s, p, c) (Admitted-check_lines before l after e q a)

  -- `isAuthorized` on a file that can be opened: it is true exactly if a line has a key that the checker
  -- accepts and every line before it is blank, a comment, or a key that the checker does not accept.
  -- So a line that cannot be parsed shuts out the keys behind it.
  pub is_authorized_iff :
      (r : Reads) → (is_authorized parse checker (some r) ≡ true) ↔ Admitted r.lines
  unfolding is_authorized
  is_authorized_iff r = (
    check_lines-Admitted r.lines r.ending,
    λ (before, l, after, e, q, a). rw e (Admitted-check_lines before l after r.ending q a),
  )

module _ {K C : Type 0} (ssh : Ssh K C) where
  signed_by-true :
      (user : Bytes) (cert : C) (k : K)
      → signed_by ssh user cert k ≡ true
      → (ssh.marshal (ssh.signature_key cert) ≡ ssh.marshal k) × (ssh.check_cert user cert ≡ true)
  unfolding signed_by
  signed_by-true user cert k h =
      let a = bytes_eq (ssh.marshal (ssh.signature_key cert)) (ssh.marshal k) in
      elim (Bool-cases a) [
        | inl e ↦ elim (Bool-cases (ssh.check_cert user cert)) [
          | inl c ↦ ((bytes_eq_iff (ssh.marshal (ssh.signature_key cert)) (ssh.marshal k)).0 e, c)
          | inr c ↦ absurd (cc (rw (e, c) at h))
        ]
        | inr e ↦ absurd (cc (rw e at h))
      ]

  -- `WithTrustedUserCAKeys` lets a key in only if it is a certificate that passes the check for the
  -- user's name, and whose signature key is one that a line of the file lists.
  pub trusted_user_ca_keys-Listed :
      (r : Reads) (user : Bytes) (key : K)
      → trusted_user_ca_keys ssh (some r) user key ≡ true
      → (cert : C) × (l : Bytes) × (k : K) × (ssh.as_certificate key ≡ some cert)
        × (ssh.check_cert user cert ≡ true)
        × ((before : List Bytes) × (after : List Bytes) × (r.lines ≡ before ++ l ∷ after))
        × (ssh.parse l ≡ some k)
        × (ssh.marshal (ssh.signature_key cert) ≡ ssh.marshal k)
  unfolding trusted_user_ca_keys
  trusted_user_ca_keys-Listed r user key h = elim (Option-cases (ssh.as_certificate key)) [
    | inl n ↦ absurd (cc (rw n at h))
    | inr (cert, e) ↦
        let (before, l, after, f, q, (s, k, p, c)) =
          (is_authorized_iff ssh.parse (signed_by ssh user cert) r).0 (rw e at h) in
        let (m, ok) = signed_by-true user cert k c in (cert, l, k, e, ok, (before, after, f), p, m)
  ]
