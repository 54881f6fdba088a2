-- ===== src/Git/Calls.antt =====
-- The calls that each part of git/git.go makes, in order.
use wish.Base.{
  Bytes, codes, List, [], ◌∷◌, ◌++◌, Bool, true, false, Option, none, some, trim_prefix, ◌≡◌, refl,
  ◌⊎◌, inl, inr, All, All-append, append_assoc, append-nil, sym, ◌∙◌, ap,
}
use wish.FilePath.{join}
use wish.Session.{World}
use wish.Git.{
  AccessLevel, GitError, not_authed, system_malfunction, invalid_repo, other_error, Head,
  head_found, reference_not_found, head_failed, NextBranch, branch, no_branch, Call, auth_call,
  stat_call, mkdir_call, init_call, open_call, git_call, push_call, fetch_call, Host, State,
  with_state, Result, can_write, can_read, is_receive, is_upload, err_of, stat_at, file_exists,
  if_fine, changed, unless_exists, ensure_dir, ensure_init, ensure_repo, run_git, rename_to,
  first_branch, ensure_default_branch, if_exists, upload, receive, git_pack, fatal, pushed, fetched,
  after_receive, after_upload,
}

-- A world behind another: `new` are the calls between them.
abbrev pub Since : {D : Type 0} → (Call → Type 0) → World (State D) → World (State D) → Type 0
Since P w w' = (new : List Call) × (w'.state.calls ≡ w.state.calls ++ new) × All P new

-- What the handler may call for the command `gc` on `repo`, in `dir`, with the access it was granted:
-- it looks at the two paths; git itself runs with the access of the command only, and only on the
-- repository's path; only a writing command makes a directory or a repository.
abbrev pub Granted : Bytes → Bytes → Bytes → AccessLevel → Call → Type 0
Granted dir gc repo level (auth_call r k) = r ≡ repo
Granted dir gc repo level (stat_call p) = (p ≡ dir) ⊎ (p ≡ join dir repo)
Granted dir gc repo level (mkdir_call p) = (p ≡ dir) × (can_write level ≡ true)
Granted dir gc repo level (init_call p) = (p ≡ join dir repo) × (can_write level ≡ true)
Granted dir gc repo level (open_call p) = (p ≡ join dir repo) × (can_write level ≡ true)
Granted dir gc repo level (git_call d args) =
    ((d ≡ [])
      × (args ≡ trim_prefix gc (codes "git-") ∷ join dir repo ∷ [])
      × (((is_receive gc ≡ true) × (can_write level ≡ true))
          ⊎ ((is_upload gc ≡ true) × (can_read level ≡ true))))
    ⊎ ((d ≡ join dir repo) × (is_receive gc ≡ true) × (can_write level ≡ true))
Granted dir gc repo level (push_call r) =
    (r ≡ repo) × (is_receive gc ≡ true) × (can_write level ≡ true)
Granted dir gc repo level (fetch_call r) =
    (r ≡ repo) × (is_upload gc ≡ true) × (can_read level ≡ true)

module _ {D : Type 0} (host : Host D) (P : Call → Type 0) where
  pub Since-refl : (w : World (State D)) → Since P w w
  Since-refl w = ([], sym (append-nil w.state.calls), tt)

  pub Since-trans : (u v w : World (State D)) → Since P u v → Since P v w → Since P u w
  Since-trans u v w (a, e, p) (b, f, q) =
      (a ++ b, f ∙ ap (λ x. x ++ b) e ∙ append_assoc u.state.calls a b, All-append P a b p q)

  pub Since-one : (w : World (State D)) (k : Call) (d : D) → P k → Since P w (with_state w k d)
  Since-one w k d p = (k ∷ [], refl, (p, tt))

  if_fine-Since :
      (u : World (State D)) (k : World (State D) → Result D) (r : Result D)
      → ((v : World (State D)) → Since P v (k v).0)
      → Since P u r.0
      → Since P u (if_fine host k r).0
  if_fine-Since u k (w, none) h s = Since-trans u w (k w).0 s (h w)
  if_fine-Since u k (w, some e) h s = s

  unless_exists-Since :
      (k : World (State D) → Result D) (x : Bool × Option GitError) (w : World (State D))
      → ((v : World (State D)) → Since P v (k v).0)
      → Since P w (unless_exists host k x w).0
  unless_exists-Since k (x, some e) w h = Since-refl w
  unless_exists-Since k (true, none) w h = Since-refl w
  unless_exists-Since k (false, none) w h = h w

  run_git-Since :
      (dir : Bytes) (args : List Bytes) (w : World (State D))
      → P (git_call dir args)
      → Since P w (run_git host dir args w).0
  unfolding run_git
  run_git-Since dir args w p = (git_call dir args ∷ [], refl, (p, tt))

  rename_to-Since :
      (p b : Bytes) (h : Head) (w : World (State D))
      → ((args : List Bytes) → P (git_call p args))
      → Since P w (rename_to host p b h w).0
  rename_to-Since p b head_found w g = Since-refl w
  rename_to-Since p b reference_not_found w g =
      run_git-Since p (codes "branch" ∷ codes "-M" ∷ b ∷ []) w
        (g (codes "branch" ∷ codes "-M" ∷ b ∷ []))
  rename_to-Since p b (head_failed e) w g = Since-refl w

  first_branch-Since :
      (p : Bytes) (n : NextBranch) (w : World (State D))
      → ((args : List Bytes) → P (git_call p args))
      → Since P w (first_branch host p n w).0
  first_branch-Since p (no_branch e) w g = Since-refl w
  first_branch-Since p (branch b) w g = rename_to-Since p b (host.head p w.state.disk) w g

  ensure_default_branch-Since :
      (p : Bytes) (w : World (State D))
      → P (open_call p)
      → ((args : List Bytes) → P (git_call p args))
      → Since P w (ensure_default_branch host p w).0
  unfolding ensure_default_branch
  ensure_default_branch-Since p w o g =
      let v = with_state w (open_call p) w.state.disk in
      let next : World (State D) → Result D =
        λ w2. first_branch host p (host.next p w2.state.disk) w2 in
      Since-trans w v (ensure_default_branch host p w).0 (Since-one w (open_call p) w.state.disk o)
        (if_fine-Since v (λ w1. if_fine host next (w1, err_of (host.branches p w1.state.disk)))
          (v, err_of (host.plain_open p v.state.disk))
          (λ w1.
            if_fine-Since w1 next (w1, err_of (host.branches p w1.state.disk))
              (λ w2. first_branch-Since p (host.next p w2.state.disk) w2 g) (Since-refl w1))
          (Since-refl v))

  ensure_dir-Since :
      (p : Bytes) (w : World (State D))
      → P (stat_call p)
      → P (mkdir_call p)
      → Since P w (ensure_dir host p w).0
  unfolding ensure_dir
  ensure_dir-Since p w a b =
      Since-trans w (stat_at host p w) (ensure_dir host p w).0
        (Since-one w (stat_call p) w.state.disk a)
        (unless_exists-Since (λ v. changed host (mkdir_call p) v (host.mkdir_all p v.state.disk))
          (file_exists host p w) (stat_at host p w) (λ v. (mkdir_call p ∷ [], refl, (b, tt))))

  ensure_init-Since :
      (p : Bytes) (w : World (State D))
      → P (stat_call p)
      → P (init_call p)
      → Since P w (ensure_init host p w).0
  unfolding ensure_init
  ensure_init-Since p w a b =
      Since-trans w (stat_at host p w) (ensure_init host p w).0
        (Since-one w (stat_call p) w.state.disk a)
        (unless_exists-Since (λ v. changed host (init_call p) v (host.plain_init p v.state.disk))
          (file_exists host p w) (stat_at host p w) (λ v. (init_call p ∷ [], refl, (b, tt))))

  if_exists-Since :
      (k : World (State D) → Result D) (x : Bool × Option GitError) (w : World (State D))
      → ((v : World (State D)) → Since P v (k v).0)
      → Since P w (if_exists host k x w).0
  if_exists-Since k (false, e) w h = Since-refl w
  if_exists-Since k (true, some e) w h = Since-refl w
  if_exists-Since k (true, none) w h = h w

  upload-Since :
      (cmd rp : Bytes) (w : World (State D))
      → P (stat_call rp)
      → P (git_call [] (cmd ∷ rp ∷ []))
      → Since P w (upload host cmd rp w).0
  unfolding upload
  upload-Since cmd rp w a g =
      Since-trans w (stat_at host rp w) (upload host cmd rp w).0
        (Since-one w (stat_call rp) w.state.disk a)
        (if_exists-Since (run_git host [] (cmd ∷ rp ∷ [])) (file_exists host rp w)
          (stat_at host rp w) (λ v. run_git-Since [] (cmd ∷ rp ∷ []) v g))

  receive-Since :
      (cmd dir repo : Bytes) (w : World (State D))
      → P (stat_call dir) × P (mkdir_call dir)
      → P (stat_call (join dir repo))
        × P (init_call (join dir repo))
        × P (open_call (join dir repo))
      → P (git_call [] (cmd ∷ join dir repo ∷ []))
      → ((args : List Bytes) → P (git_call (join dir repo) args))
      → Since P w (receive host cmd dir repo w).0
  unfolding receive ensure_repo
  receive-Since cmd dir repo w (a, b) (c, d, e) g more =
      let rp = join dir repo in
      let made = ensure_repo host dir repo w in
      let ran = if_fine host (run_git host [] (cmd ∷ rp ∷ [])) made in
      let named = if_fine host (ensure_default_branch host rp) ran in
      let s0 : Since P w made.0 =
        if_fine-Since w (ensure_init host rp) (ensure_dir host dir w)
          (λ v. ensure_init-Since rp v c d) (ensure_dir-Since dir w a b) in
      let s1 : Since P w ran.0 =
        if_fine-Since w (run_git host [] (cmd ∷ rp ∷ [])) made
          (λ v. run_git-Since [] (cmd ∷ rp ∷ []) v g) s0 in
      let s2 : Since P w named.0 =
        if_fine-Since w (ensure_default_branch host rp) ran
          (λ v. ensure_default_branch-Since rp v e more) s1 in
      if_fine-Since w (run_git host rp (codes "update-server-info" ∷ [])) named
        (λ v.
          run_git-Since rp (codes "update-server-info" ∷ []) v
            (more (codes "update-server-info" ∷ [])))
        s2

  after_receive-Since :
      (repo : Bytes) (pk : Option Bytes) (u : World (State D)) (r : Result D)
      → P (push_call repo)
      → Since P u r.0
      → Since P u (after_receive host repo pk r).0
  unfolding fatal
  after_receive-Since repo pk u (w, none) p s =
      Since-trans u w (pushed host repo pk w).0 s
        (Since-one w (push_call repo) (host.push repo pk w.state.disk) p)
  after_receive-Since repo pk u (w, some e) p s = s

  after_upload-Since :
      (repo : Bytes) (pk : Option Bytes) (u : World (State D)) (r : Result D)
      → P (fetch_call repo)
      → Since P u r.0
      → Since P u (after_upload host repo pk r).0
  unfolding fatal
  after_upload-Since repo pk u (w, none) p s =
      Since-trans u w (fetched host repo pk w).0 s
        (Since-one w (fetch_call repo) (host.fetch repo pk w.state.disk) p)
  after_upload-Since repo pk u (w, some not_authed) p s = s
  after_upload-Since repo pk u (w, some system_malfunction) p s = s
  after_upload-Since repo pk u (w, some invalid_repo) p s = s
  after_upload-Since repo pk u (w, some (other_error e)) p s = s

module _ {D : Type 0} (host : Host D) (dir gc repo : Bytes) (level : AccessLevel) where
  pub receive_served :
      (pk : Option Bytes) (w : World (State D))
      → is_receive gc ≡ true
      → is_upload gc ≡ false
      → can_write level ≡ true
      → Since
          (Granted dir gc repo level)
          w
          (after_receive host repo pk (git_pack host gc dir repo w)).0
  unfolding git_pack
  receive_served pk w r u c =
      rw (u, r)
        (after_receive-Since host (Granted dir gc repo level) repo pk w
          (receive host (trim_prefix gc (codes "git-")) dir repo w) (refl, r, c)
          (receive-Since host (Granted dir gc repo level) (trim_prefix gc (codes "git-")) dir repo w
            (inl refl, (refl, c)) (inr refl, (refl, c), (refl, c)) (inl (refl, refl, inl (r, c)))
            (λ args. inr (refl, r, c))))

  pub upload_served :
      (pk : Option Bytes) (w : World (State D))
      → is_upload gc ≡ true
      → can_read level ≡ true
      → Since
          (Granted dir gc repo level)
          w
          (after_upload host repo pk (git_pack host gc dir repo w)).0
  unfolding git_pack
  upload_served pk w u c = rw u (
      after_upload-Since host (Granted dir gc repo level) repo pk w
        (upload host (trim_prefix gc (codes "git-")) (join dir repo) w) (refl, u, c)
        (upload-Since host (Granted dir gc repo level) (trim_prefix gc (codes "git-"))
          (join dir repo) w (inr refl) (inl (refl, refl, inr (u, c)))))
