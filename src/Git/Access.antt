-- ===== src/Git/Access.antt =====
-- What the git middleware answers, and with which access it runs what.
use wish.Base.{
  length, bytes_eq_iff, ◌≢◌, Bytes, codes, List, [], ◌∷◌, ◌++◌, true, false, none, bytes_eq,
  count_byte, ltb, if◌then◌else◌, ◌≡◌, refl, ◌⊎◌, inl, inr, Bool-cases, append_assoc, ◌∙◌, ap,
}
use wish.Git.Calls.{Since, Since-refl, Granted, receive_served, upload_served}
use wish.FilePath.{slash}
use wish.Session.{Session, stdout, exit, World, Action, Handler}
use wish.Git.PktLine.{pkt_line}
use wish.Git.{
  AccessLevel, GitError, error_text, not_authed, invalid_repo, Call, auth_call, Host, State,
  with_state, repo_of, can_write, can_read, is_receive, is_upload, fatal, serve, on_command,
  git_middleware,
}

-- The command `gc` needs an access that `level` does not give.
abbrev pub Lacking : Bytes → AccessLevel → Type 0
Lacking gc level =
    ((is_receive gc ≡ true) × (can_write level ≡ false))
    ⊎ ((is_upload gc ≡ true) × (can_read level ≡ false))

-- The answer of `Fatal`: one packet line, and status 1.
abbrev pub answered : {D : Type 0} → World (State D) → GitError → World (State D)
answered w e = record w { events = w.events ++ stdout (pkt_line (error_text e)) ∷ exit 1 ∷ [] }

receive-not-upload : (gc : Bytes) → is_receive gc ≡ true → is_upload gc ≡ false
unfolding is_receive is_upload bytes_eq
receive-not-upload gc h = rw ((bytes_eq_iff gc (codes "git-receive-pack")).0 h) refl

upload-not-receive : (gc : Bytes) → is_upload gc ≡ true → is_receive gc ≡ false
upload-not-receive gc h = elim (Bool-cases (is_receive gc)) [
  | inl e ↦ absurd (cc (receive-not-upload gc e, h))
  | inr e ↦ e
]

module _ {D : Type 0} (host : Host D) (dir : Bytes) (sh : Handler (State D)) (s : Session)
    (w : World (State D)) where
  -- The level that the hook gives, and the world behind its call.
  abbrev pub level_of : Bytes → AccessLevel
  level_of repo = (host.auth_repo repo s.public_key w.state.disk).1

  abbrev pub asked : Bytes → World (State D)
  asked repo =
      with_state w (auth_call repo s.public_key) (host.auth_repo repo s.public_key w.state.disk).0

  fatal-answered : (e : GitError) (v : World (State D)) → fatal host e v ≡ (answered v e, none)
  unfolding fatal
  fatal-answered e v = simp (append_assoc)

  Lacking-served :
      (gc repo : Bytes) (next : Action (State D)) (v : World (State D))
      → Lacking gc (level_of repo)
      → serve host dir gc repo s.public_key (level_of repo) next v ≡ fatal host not_authed v
  unfolding serve
  Lacking-served gc repo next v (inl (r, l)) = rw (r, l) refl
  Lacking-served gc repo next v (inr (u, l)) = rw (upload-not-receive gc u, u, l) refl

  fatal-Since :
      (P : Call → Type 0) (e : GitError) (v : World (State D)) → Since P v (fatal host e v).0
  unfolding fatal
  fatal-Since P e v = Since-refl host P v

  served-Granted :
      (gc repo : Bytes) (level : AccessLevel) (next : Action (State D)) (v : World (State D))
      → (is_receive gc ≡ true) ⊎ (is_upload gc ≡ true)
      → Since (Granted dir gc repo level) v (serve host dir gc repo s.public_key level next v).0
  unfolding serve
  served-Granted gc repo level next v (inl r) = elim (Bool-cases (can_write level)) [
    | inl c ↦
        rw (r, c)
          (receive_served host dir gc repo level s.public_key v r (receive-not-upload gc r) c)
    | inr c ↦ rw (r, c) (fatal-Since (Granted dir gc repo level) not_authed v)
  ]
  served-Granted gc repo level next v (inr u) = elim (Bool-cases (can_read level)) [
    | inl c ↦
        rw (upload-not-receive gc u, u, c) (upload_served host dir gc repo level s.public_key v u c)
    | inr c ↦
        rw (upload-not-receive gc u, u, c) (fatal-Since (Granted dir gc repo level) not_authed v)
  ]

  other_command :
      (cmd : List Bytes) → length cmd ≢ 2 → on_command host dir cmd s.public_key (sh s) w ≡ sh s w
  other_command [] n = refl
  other_command (a ∷ []) n = refl
  other_command (a ∷ b ∷ []) n = absurd (n refl)
  other_command (a ∷ b ∷ c ∷ cmd) n = refl

  middleware_on :
      (gc arg : Bytes)
      → s.command ≡ gc ∷ arg ∷ []
      → ltb 1 (count_byte slash (repo_of arg)) ≡ false
      → git_middleware host dir sh s w
        ≡ serve host dir gc
            (repo_of arg)
            s.public_key
            (level_of (repo_of arg))
            (sh s)
            (asked (repo_of arg))
  unfolding git_middleware
  middleware_on gc arg e c = rw (e, c) refl

  -- A git command without the access that it needs: the hook is asked, nothing else is called, and
  -- the session is told that it is not authorized and ended with status 1.
  pub git-Lacking :
      (gc arg : Bytes)
      → s.command ≡ gc ∷ arg ∷ []
      → ltb 1 (count_byte slash (repo_of arg)) ≡ false
      → Lacking gc (level_of (repo_of arg))
      → git_middleware host dir sh s w ≡ (answered (asked (repo_of arg)) not_authed, none)
  git-Lacking gc arg e c l =
      let repo = repo_of arg in
      middleware_on gc arg e c
      ∙ Lacking-served gc repo (sh s) (asked repo) l
      ∙ fatal-answered not_authed (asked repo)

  -- A git command: all that is called behind the hook is granted by the level that the hook gave, and
  -- lies at the directory or at the path of the very repository that the hook was asked about.
  pub git-Granted :
      (gc arg : Bytes)
      → s.command ≡ gc ∷ arg ∷ []
      → ltb 1 (count_byte slash (repo_of arg)) ≡ false
      → (is_receive gc ≡ true) ⊎ (is_upload gc ≡ true)
      → Since
          (Granted dir gc (repo_of arg) (level_of (repo_of arg)))
          (asked (repo_of arg))
          (git_middleware host dir sh s w).0
  git-Granted gc arg e c g =
      let repo = repo_of arg in
      rw (middleware_on gc arg e c) (served-Granted gc repo (level_of repo) (sh s) (asked repo) g)

  not_served :
      (gc repo : Bytes) (level : AccessLevel) (next : Action (State D)) (v : World (State D))
      → is_receive gc ≡ false
      → is_upload gc ≡ false
      → serve host dir gc repo s.public_key level next v ≡ next v
  unfolding serve
  not_served gc repo level next v r u = rw (r, u) refl

  -- A command of two words of which the first is no git command: the hook is asked about the second
  -- and the session goes to the next handler. But if the second word has too many slashes, it ends as
  -- an invalid repository.
  pub git_not_git :
      (gc arg : Bytes)
      → s.command ≡ gc ∷ arg ∷ []
      → is_receive gc ≡ false
      → is_upload gc ≡ false
      → git_middleware host dir sh s w ≡ (
          if ltb 1 (count_byte slash (repo_of arg))
          then (answered w invalid_repo, none)
          else sh s (asked (repo_of arg)))
  unfolding git_middleware
  git_not_git gc arg e r u = elim (Bool-cases (ltb 1 (count_byte slash (repo_of arg)))) [
    | inl c ↦
        ap (λ cmd. on_command host dir cmd s.public_key (sh s) w) e
        ∙ rw c (fatal-answered invalid_repo w)
    | inr c ↦
        middleware_on gc arg e c
        ∙ rw c
            (not_served gc (repo_of arg) (level_of (repo_of arg)) (sh s) (asked (repo_of arg)) r u)
  ]

  -- A session whose command has not two words goes to the next handler as it is, and no hook is asked.
  pub git_other_words : length s.command ≢ 2 → git_middleware host dir sh s w ≡ sh s w
  unfolding git_middleware
  git_other_words = other_command s.command
