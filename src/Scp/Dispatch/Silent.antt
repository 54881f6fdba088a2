-- ===== src/Scp/Dispatch/Silent.antt =====
-- The command `scp` without a direction.
use wish.Base.{
  Bytes, List, [], ◌∷◌, true, false, Option, none, bytes_eq, All, ◌≡◌, refl, ap, ◌∙◌, Bool-cases,
  inl, inr,
}
use wish.Session.{Session, World, Handler}
use wish.Scp.Info.{unset, Info, no_info, get_info, get_info_loop, flag_r, flag_f, flag_t, scp_name}
use wish.Scp.Receive.{CopyFromClientHandler}
use wish.Scp.Send.{CopyToClientHandler}
use wish.Scp.Dispatch.{Link, Texts, on_info, on_op, scp_middleware}

-- An argument that gives no direction.
abbrev pub NoDirection : Bytes → Type 0
NoDirection p = (bytes_eq p flag_f ≡ false) × (bytes_eq p flag_t ≡ false)

get_info_loop-NoDirection :
    (ps : List Bytes) (i : Info)
    → All NoDirection ps
    → ((get_info_loop ps i).ok ≡ true) × ((get_info_loop ps i).op ≡ i.op)
unfolding get_info_loop
get_info_loop-NoDirection [] i h = (refl, refl)
get_info_loop-NoDirection (p ∷ ps) i ((f, t), h) = elim (Bool-cases (bytes_eq p flag_r)) [
  | inl e ↦ rw e (get_info_loop-NoDirection ps (record i { recursive = true }) h)
  | inr e ↦ rw (e, f, t) (get_info_loop-NoDirection ps i h)
]

get_info-NoDirection :
    (args : List Bytes)
    → All NoDirection args
    → ((get_info (scp_name ∷ args)).ok ≡ true) × ((get_info (scp_name ∷ args)).op ≡ unset)
unfolding get_info bytes_eq
get_info-NoDirection args h = get_info_loop-NoDirection (scp_name ∷ args) no_info ((refl, refl), h)

-- The command `scp` without "-f" and "-t" is neither answered nor passed on: the session ends as if
-- all were done, whatever the handlers are.
pub scp_middleware-NoDirection :
    {R W : Type 0} (texts : Texts) (rh : Option (CopyToClientHandler R))
    (wh : Option (CopyFromClientHandler W)) (sh : Handler (Link R W)) (s : Session)
    (w : World (Link R W)) (args : List Bytes)
    → s.command ≡ scp_name ∷ args
    → All NoDirection args
    → scp_middleware texts rh wh sh s w ≡ (w, none)
unfolding scp_middleware
scp_middleware-NoDirection texts rh wh sh s w args e h =
    let (ok, op) = get_info-NoDirection args h in
    let info = get_info s.command in
    let p : info.ok ≡ true = ap (λ c. (get_info c).ok) e ∙ ok in
    let q : info.op ≡ unset = ap (λ c. (get_info c).op) e ∙ op in
    (λ i. on_info texts rh wh (sh s) (p i) info w) ∙ (λ i. on_op texts rh wh (q i) info w)
