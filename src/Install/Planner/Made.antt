-- ===== src/Install/Planner/Made.antt =====
-- What a plan that was made has of the machine it was made on.
use agent_permission_guard.Base.Outcome.{ok, refuse-eq-ok, bind-eq-ok, ok-injective}
use agent_permission_guard.Base.{
  ltb, Bool-cases, Option-cases, not-not, Text, codes, ℕ, ◌≡◌, refl, ap, ◌∙◌, subst, inl, inr, true,
  ◌||◌, not, Option, none, some, List, [], ◌∷◌,
}
use agent_permission_guard.Install.{InstallRequest, PackageMetadata}
use agent_permission_guard.Install.Machine.{
  Stat, Machine, Platform, PlanError, io_failed, timeout_out_of_range, metadata_mismatch,
  evidence_expired, not_a_directory, project_npmrc, no_package_json, no_path, no_executable,
  or_failed, is_none, snapshot_known_install_files,
}
use agent_permission_guard.Install.Plan.{Executable, Plan, runner_name, hash_of}
use agent_permission_guard.Install.Planner.{
  Environment, validate_options, build_arguments, validate_https_url, valid_integrity, is_expired,
  identity, candidate_file, at_real_path, candidate, first_candidate, resolve_executable_identity,
  bin_of, lacks_package_json, create,
}

some-injective : {A : Type 0} {a b : A} → some a ≡ some b → a ≡ b
some-injective h = cc

pub or_failed-ok :
    {A : Type 0} (e : PlanError) (o : Option A) (a : A) → or_failed e o ≡ ok a → o ≡ some a
or_failed-ok e none a h = absurd (cc)
or_failed-ok e (some b) a h = ap some (ok-injective h)

module _ (p : Platform) (m : Machine) where
  -- An executable has the bytes of its hash.
  abbrev pub IsIdentity : Executable → Type 0
  IsIdentity e = (bytes : Text) × (m.read_file e.path ≡ some bytes) × (p.sha256 bytes ≡ e.sha256)

  identity-IsIdentity :
      (path : Text) (o : Option Text) (e : Executable)
      → m.read_file path ≡ o
      → identity p m path o ≡ some e
      → IsIdentity e
  identity-IsIdentity path none e r h = absurd (cc)
  identity-IsIdentity path (some bytes) e r h = subst IsIdentity (some-injective h) (bytes, r, refl)

  candidate_file-IsIdentity :
      (path : Text) (o : Option Stat) (e : Executable)
      → candidate_file p m path o ≡ some e
      → IsIdentity e
  candidate_file-IsIdentity path none e h = absurd (cc)
  candidate_file-IsIdentity path (some s) e h =
      elim (Bool-cases (not s.is_file || ltb 20000000 s.size)) [
        | inl k ↦ let n = rw k at h in absurd (cc)
        | inr k ↦ identity-IsIdentity path (m.read_file path) e refl (rw k at h)
      ]

  at_real_path-IsIdentity :
      (o : Option Text) (e : Executable) → at_real_path p m o ≡ some e → IsIdentity e
  at_real_path-IsIdentity none e h = absurd (cc)
  at_real_path-IsIdentity (some path) e h = candidate_file-IsIdentity path (m.stat path) e h

  candidate-IsIdentity : (path : Text) (e : Executable) → candidate p m path ≡ some e → IsIdentity e
  unfolding candidate
  candidate-IsIdentity path e h = elim (Bool-cases (m.is_executable path)) [
    | inl k ↦ at_real_path-IsIdentity (m.real_path path) e (rw k at h)
    | inr k ↦ let n = rw k at h in absurd (cc)
  ]

  first_candidate-IsIdentity :
      (paths : List Text) (e : Executable) → first_candidate p m paths ≡ some e → IsIdentity e
  unfolding first_candidate
  first_candidate-IsIdentity [] e h = absurd (cc)
  first_candidate-IsIdentity (path ∷ paths) e h = elim (Option-cases (candidate p m path)) [
    | inl k ↦ first_candidate-IsIdentity paths e (rw (k, first_candidate) at h)
    | inr (f, k) ↦ candidate-IsIdentity path e (k ∙ rw (k, first_candidate) at h)
  ]

  resolve_executable_identity-IsIdentity :
      (name : Text) (environment : Environment) (e : Executable)
      → resolve_executable_identity p m name environment ≡ ok e
      → IsIdentity e
  unfolding resolve_executable_identity
  resolve_executable_identity-IsIdentity name environment e h =
      let (path, _, h1) = bind-eq-ok (or_failed no_path environment.path) _ h in
      first_candidate-IsIdentity _ e (or_failed-ok no_executable _ e h1)

  pub record IsPlanned (plan : Plan) : Type 0 where
    pub hashed : hash_of p plan.body ≡ plan.plan_hash
    pub requested : Text
    pub resolved : m.real_path requested ≡ some plan.body.working_directory
    pub stats : Stat
    pub at : m.stat plan.body.working_directory ≡ some stats
    pub device : stats.device ≡ plan.body.working_directory_device
    pub inode : stats.inode ≡ plan.body.working_directory_inode
    pub executable : IsIdentity plan.body.executable
    pub runtime : IsIdentity plan.body.runtime_executable
    pub files :
        snapshot_known_install_files p m plan.body.working_directory ≡ ok plan.body.before_files
    pub no_npmrc : is_none (m.stat (p.join plan.body.working_directory (codes ".npmrc"))) ≡ true

  pub create-IsPlanned :
      (environment : Environment) (clock : Option ℕ) (request : InstallRequest)
      → (metadata : PackageMetadata) (timeout_ms : ℕ) (plan : Plan)
      → create p m environment clock request metadata timeout_ms ≡ ok plan
      → IsPlanned plan
  unfolding create
  create-IsPlanned environment clock request metadata timeout_ms plan h =
      let (_, h1) = refuse-eq-ok _ timeout_out_of_range _ h in
      let (_, h2) = refuse-eq-ok _ metadata_mismatch _ h1 in
      let (_, _, h3) = bind-eq-ok (validate_options request.runner request.options) _ h2 in
      let (now, _, h4) = bind-eq-ok (or_failed evidence_expired clock) _ h3 in
      let (observed, _, h5) =
        bind-eq-ok (or_failed evidence_expired (p.parse_date metadata.observed_at)) _ h4 in
      let (_, h6) = refuse-eq-ok (is_expired now observed) evidence_expired _ h5 in
      let (registry, _, h7) = bind-eq-ok (validate_https_url p (some metadata.registry)) _ h6 in
      let (tarball, _, h8) = bind-eq-ok (validate_https_url p metadata.tarball_url) _ h7 in
      let (integrity, _, h9) = bind-eq-ok (valid_integrity p metadata.integrity) _ h8 in
      let (directory, real, h10) =
        bind-eq-ok (or_failed io_failed (m.real_path request.working_directory)) _ h9 in
      let (stats, at, h11) = bind-eq-ok (or_failed io_failed (m.stat directory)) _ h10 in
      let (_, h12) = refuse-eq-ok (not stats.is_directory) not_a_directory _ h11 in
      let (npmrc, h13) =
        refuse-eq-ok (not (is_none (m.stat (p.join directory (codes ".npmrc"))))) project_npmrc _
          h12 in
      let (_, h14) =
        refuse-eq-ok (lacks_package_json p m request.runner directory) no_package_json _ h13 in
      let (path, _, h15) = bind-eq-ok (or_failed no_path environment.path) _ h14 in
      let (executable, one, h16) =
        bind-eq-ok (resolve_executable_identity p m (runner_name request.runner) environment) _
          h15 in
      let (runtime, two, h17) =
        bind-eq-ok (resolve_executable_identity p m (codes "node") environment) _ h16 in
      let (bin, _, h18) = bind-eq-ok (bin_of p m request metadata request.runner) _ h17 in
      let (arguments, _, h19) = bind-eq-ok (build_arguments request metadata registry bin) _ h18 in
      let (files, three, h20) = bind-eq-ok (snapshot_known_install_files p m directory) _ h19 in
      subst IsPlanned (ok-injective h20) (record {
        hashed = refl;
        requested = request.working_directory;
        resolved = or_failed-ok io_failed (m.real_path request.working_directory) directory real;
        stats = stats;
        at = or_failed-ok io_failed (m.stat directory) stats at;
        device = refl;
        inode = refl;
        executable =
            resolve_executable_identity-IsIdentity (runner_name request.runner) environment
              executable one;
        runtime = resolve_executable_identity-IsIdentity (codes "node") environment runtime two;
        files = three;
        no_npmrc = not-not _ npmrc;
      })
