-- ===== src/Install/Verifier/Unchanged.antt =====
-- What has not changed since a plan was made when its preconditions hold.
use agent_permission_guard.Install.{InstallRequest, PackageMetadata}
use agent_permission_guard.Install.Planner.{Environment, create}
use agent_permission_guard.Install.Planner.Made.{create-IsPlanned}
use agent_permission_guard.Base.Outcome.{ok, refuse, refuse-eq-ok, bind-eq-ok, ok-injective}
use agent_permission_guard.Base.{
  ◌==◌, and-true, not-not, All, Text, codes, text_eq, text_eq_iff, ℕ, ◌≡◌, refl, sym, ap, ◌∙◌,
  subst, ◌⊎◌, inl, inr, Bool, true, false, ◌||◌, not, false≢true, Option, none, some, List, [], ◌∷◌,
  arith,
}
use agent_permission_guard.Audit.Chain.Tampering.{Collision, collision_or_equal}
use agent_permission_guard.Install.Machine.{
  Stat, Machine, Platform, PlanError, io_failed, unsafe_snapshot, plan_identity, directory_changed,
  executable_changed, files_changed, npmrc_appeared, or_failed, is_none, Snapshot, is_snapshot,
  are_snapshots, known_files, snapshot_of, snapshots, snapshot_known_install_files,
}
use agent_permission_guard.Install.Plan.{Executable, Plan}
use agent_permission_guard.Install.Planner.Made.{or_failed-ok, IsIdentity, IsPlanned}
use agent_permission_guard.Install.Verifier.{
  validate_executable_identity, validate_install_plan_preconditions,
}

-- The hash in a snapshot is that of the bytes of the file, if there is one.
digest_of :
    (p : Platform) (m : Machine) (name path : Text) (o : Option Stat) (a : Snapshot)
    → snapshot_of p m name path o ≡ ok a
    → ((o ≡ none) × (a.sha256 ≡ none))
      ⊎ ((u : Text) × (m.read_file path ≡ some u) × (a.sha256 ≡ some (p.sha256 u)))
digest_of p m name path none a h =
    inl (refl, sym (ap (λ (z : Snapshot). z.sha256) (ok-injective h)))
digest_of p m name path (some x) a h =
    let (_, h1) = refuse-eq-ok _ unsafe_snapshot _ h in
    let (u, r, h2) = bind-eq-ok (or_failed io_failed (m.read_file path)) _ h1 in
    inr (
      u,
      or_failed-ok io_failed (m.read_file path) u r,
      sym (ap (λ (z : Snapshot). z.sha256) (ok-injective h2)),
    )

refused_not : (b : Bool) (e : PlanError) → refuse b e ≡ ok tt → b ≡ false
refused_not b e h = ground (arith, h)

same-directory :
    (d w : Text) (device inode x y : ℕ)
    → (not (text_eq d w) || not (device == x) || not (inode == y)) ≡ false
    → (d ≡ w) × (device ≡ x) × (inode ≡ y)
same-directory d w device inode x y h =
    ((text_eq_iff d w).0 (ground arith), ground arith, ground arith)

module _ (p : Platform) (m n : Machine) where
  -- A file has the same bytes on both machines.
  abbrev pub IsSameRead : Text → Type 0
  IsSameRead path =
      (bytes : Text) × (m.read_file path ≡ some bytes) × (n.read_file path ≡ some bytes)

  -- A file is on neither machine, or has the same bytes on both.
  abbrev pub IsSameFile : Text → Type 0
  IsSameFile path = ((m.stat path ≡ none) × (n.stat path ≡ none)) ⊎ IsSameRead path

  same_hash-IsSameRead :
      (path s t : Text)
      → m.read_file path ≡ some s
      → n.read_file path ≡ some t
      → p.sha256 s ≡ p.sha256 t
      → Collision p.sha256 ⊎ IsSameRead path
  same_hash-IsSameRead path s t a b e = elim (collision_or_equal p.sha256 s t e) [
    | inl c ↦ inl c
    | inr q ↦ inr (t, a ∙ ap some q, b)
  ]

  snapshot_of-IsSameFile :
      (name path : Text) (a b : Snapshot)
      → snapshot_of p m name path (m.stat path) ≡ ok a
      → snapshot_of p n name path (n.stat path) ≡ ok b
      → is_snapshot b a ≡ true
      → Collision p.sha256 ⊎ IsSameFile path
  snapshot_of-IsSameFile name path a b h k e =
      let (_, digest) = and-true (text_eq b.relative_path a.relative_path) _ e in
      elim (digest_of p m name path (m.stat path) a h) [
        | inl (s, x) ↦ elim (digest_of p n name path (n.stat path) b k) [
          | inl (t, y) ↦ inr (inl (s, t))
          | inr (v, w, y) ↦ absurd (false≢true (rw (x, y) at digest))
        ]
        | inr (u, r, x) ↦ elim (digest_of p n name path (n.stat path) b k) [
          | inl (t, y) ↦ absurd (false≢true (rw (x, y) at digest))
          | inr (v, w, y) ↦
              elim (same_hash-IsSameRead path u v r w
                (sym ((text_eq_iff (p.sha256 v) (p.sha256 u)).0 (rw (x, y) at digest)))) [
                  | inl c ↦ inl c
                  | inr q ↦ inr (inr q)
                ]
        ]
      ]

  snapshots-IsSameFile :
      (directory : Text) (names : List Text) (xs ys : List Snapshot)
      → snapshots p m directory names ≡ ok xs
      → snapshots p n directory names ≡ ok ys
      → are_snapshots ys xs ≡ true
      → Collision p.sha256 ⊎ All (λ name. IsSameFile (p.join directory name)) names
  unfolding snapshots are_snapshots
  snapshots-IsSameFile directory [] xs ys h k e = inr tt
  snapshots-IsSameFile directory (name ∷ names) xs ys h k e =
      let path = p.join directory name in
      let (a, h1, h2) = bind-eq-ok (snapshot_of p m name path (m.stat path)) _ h in
      let (more, h3, h4) = bind-eq-ok (snapshots p m directory names) _ h2 in
      let (b, k1, k2) = bind-eq-ok (snapshot_of p n name path (n.stat path)) _ k in
      let (others, k3, k4) = bind-eq-ok (snapshots p n directory names) _ k2 in
      let (first, rest) = and-true (is_snapshot b a) (are_snapshots others more) (
        subst (λ zs. are_snapshots zs (a ∷ more) ≡ true) (sym (ok-injective k4))
          (subst (λ zs. are_snapshots ys zs ≡ true) (sym (ok-injective h4)) e)) in
      elim (snapshot_of-IsSameFile name path a b h1 k1 first) [
        | inl c ↦ inl c
        | inr q ↦ elim (snapshots-IsSameFile directory names more others h3 k3 rest) [
          | inl c ↦ inl c
          | inr qs ↦ inr (q, qs)
        ]
      ]

  identity-IsSameRead :
      (e : Executable)
      → IsIdentity p m e
      → validate_executable_identity p n e ≡ ok tt
      → Collision p.sha256 ⊎ IsSameRead e.path
  unfolding validate_executable_identity
  identity-IsSameRead e (s, a, h) k =
      let (t, b, k1) = bind-eq-ok (or_failed io_failed (n.read_file e.path)) _ k in
      let same = refused_not (not (text_eq (p.sha256 t) e.sha256)) executable_changed k1 in
      same_hash-IsSameRead e.path s t a (or_failed-ok io_failed (n.read_file e.path) t b)
        (h ∙ sym ((text_eq_iff (p.sha256 t) e.sha256).0 (not-not _ same)))

  -- What is the same on both machines: the directory, the two executables, the known files, and that
  -- there is no .npmrc.
  pub record IsUnchanged (plan : Plan) : Type 0 where
    pub directory :
        (s : Stat) × (t : Stat) × (m.stat plan.body.working_directory ≡ some s)
        × (n.stat plan.body.working_directory ≡ some t)
        × (s.device ≡ t.device)
        × (s.inode ≡ t.inode)
    pub executable : IsSameRead plan.body.executable.path
    pub runtime : IsSameRead plan.body.runtime_executable.path
    pub files : All (λ name. IsSameFile (p.join plan.body.working_directory name)) known_files
    pub no_npmrc : is_none (n.stat (p.join plan.body.working_directory (codes ".npmrc"))) ≡ true

  validate-IsUnchanged :
      (plan : Plan)
      → IsPlanned p m plan
      → validate_install_plan_preconditions p n plan ≡ ok tt
      → Collision p.sha256 ⊎ IsUnchanged plan
  unfolding validate_install_plan_preconditions snapshot_known_install_files
  validate-IsUnchanged plan v h =
      let body = plan.body in
      let (_, h1) = refuse-eq-ok _ plan_identity _ h in
      let (directory, real, h2) =
        bind-eq-ok (or_failed io_failed (n.real_path body.working_directory)) _ h1 in
      let (stats, at, h3) = bind-eq-ok (or_failed io_failed (n.stat directory)) _ h2 in
      let (same, h4) = refuse-eq-ok _ directory_changed _ h3 in
      let (_, one, h5) = bind-eq-ok (validate_executable_identity p n body.executable) _ h4 in
      let (_, two, h6) =
        bind-eq-ok (validate_executable_identity p n body.runtime_executable) _ h5 in
      let (current, three, h7) =
        bind-eq-ok (snapshot_known_install_files p n body.working_directory) _ h6 in
      let (files, h8) = refuse-eq-ok _ files_changed _ h7 in
      let (where_it_was, device, inode) =
        same-directory directory body.working_directory stats.device stats.inode
          body.working_directory_device body.working_directory_inode same in
      elim (identity-IsSameRead body.executable v.executable one) [
        | inl c ↦ inl c
        | inr executable ↦ elim (identity-IsSameRead body.runtime_executable v.runtime two) [
          | inl c ↦ inl c
          | inr runtime ↦
              elim (snapshots-IsSameFile body.working_directory known_files body.before_files
                current v.files three (not-not _ files)) [
                  | inl c ↦ inl c
                  | inr known ↦ inr (record {
                    directory = (
                      v.stats,
                      stats,
                      v.at,
                      ap n.stat (sym where_it_was)
                          ∙ or_failed-ok io_failed (n.stat directory) stats at,
                      v.device ∙ sym device,
                      v.inode ∙ sym inode,
                    );
                    executable = executable;
                    runtime = runtime;
                    files = known;
                    no_npmrc = not-not _ (
                        refused_not
                          (not (is_none (n.stat (p.join body.working_directory (codes ".npmrc")))))
                          npmrc_appeared h8);
                  })
                ]
        ]
      ]

  -- If a plan was made on one machine and its preconditions hold on another, then the directory is the
  -- same device and inode, the runner and the runtime have the same bytes, each known file is on
  -- neither machine or has the same bytes on both, and there is no .npmrc; or two different texts have
  -- the same SHA-256.
  pub create-validate-IsUnchanged :
      (environment : Environment) (clock : Option ℕ) (request : InstallRequest)
      → (metadata : PackageMetadata) (timeout_ms : ℕ) (plan : Plan)
      → create p m environment clock request metadata timeout_ms ≡ ok plan
      → validate_install_plan_preconditions p n plan ≡ ok tt
      → Collision p.sha256 ⊎ IsUnchanged plan
  create-validate-IsUnchanged environment clock request metadata timeout_ms plan made h =
      validate-IsUnchanged plan
        (create-IsPlanned p m environment clock request metadata timeout_ms plan made) h
