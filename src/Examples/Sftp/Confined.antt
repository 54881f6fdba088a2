-- ===== src/Examples/Sftp/Confined.antt =====
-- What the handler looks at lies below its directory.
use wish.Base.{ℕ, Bytes, List, [], ◌∷◌, ◌++◌, Bool, true, ◌≡◌, refl, ap, ◌∙◌, All}
use wish.FilePath.{IsName, render, join}
use wish.FilePath.Laws.{join-render_names}
use wish.Scp.FileSystem.Prefixed.{Below}
use wish.Examples.Sftp.{
  Read, not_read, OpenFlag, Request, Method, list_method, stat_method, other_method, Disk, listed,
  infos, file_read, file_list_as, file_list, and_read, got, open_flags,
}

module _ {H I E : Type 0} (r : Bool) (ns : List Bytes) (a b : Disk H I E) where
  -- Two disks that agree on all that lies at or below `render r ns`, and on what the entries of directories are.
  pub record Agree : Type 0 where
    pub opened :
        (q : Bytes) (f : List OpenFlag) (m : ℕ)
        → Below r ns q
        → a.open_file q f m ≡ b.open_file q f m
    pub read : (q : Bytes) → Below r ns q → a.read_dir q ≡ b.read_dir q
    pub info : (e : E) → a.entry_info e ≡ b.entry_info e
    pub stat : (q : Bytes) → Below r ns q → a.stat q ≡ b.stat q

  module _ (agree : Agree) where
    infos_same : (es : List E) → infos a (render r ns) es ≡ infos b (render r ns) es
    unfolding infos
    infos_same [] = refl
    infos_same (e ∷ es) = rw (agree.info e, infos_same es) refl

    listed_same : (x : Read (List E)) → listed a (render r ns) x ≡ listed b (render r ns) x
    listed_same (got es) = infos_same es
    listed_same (not_read e) = refl

    file_list_same :
        (m : Method) (q : Bytes)
        → Below r ns q
        → file_list_as a (render r ns) m q ≡ file_list_as b (render r ns) m q
    file_list_same list_method q k =
        listed_same (a.read_dir q) ∙ ap (listed b (render r ns)) (agree.read q k)
    file_list_same stat_method q k = ap (and_read (λ i. got (i ∷ []))) (agree.stat q k)
    file_list_same (other_method m) q k = refl

    -- For a request at an absolute cleaned path, reading and listing depend on nothing but what lies at or below
    -- the directory of the handler, a cleaned path of names: over two disks that agree there they give the same.
    pub file_read-Agree :
        (req : Request) (ms : List Bytes)
        → All IsName ns
        → All IsName ms
        → req.filepath ≡ render true ms
        → (file_read a (render r ns) req ≡ file_read b (render r ns) req)
          × (file_list a (render r ns) req ≡ file_list b (render r ns) req)
    unfolding file_read file_list
    file_read-Agree req ms h k e =
        let q : join (render r ns) req.filepath ≡ render r (ns ++ ms) =
          ap (join (render r ns)) e ∙ join-render_names r ns ms h k in
        let below : Below r ns (join (render r ns) req.filepath) = (ms, q, k) in
        (
          agree.opened (join (render r ns) req.filepath) (open_flags req.pflags) 384 below,
          file_list_same req.method (join (render r ns) req.filepath) below,
        )
