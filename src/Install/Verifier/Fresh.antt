-- ===== src/Install/Verifier/Fresh.antt =====
-- The preconditions of a plan hold as long as the machine is as it was when the plan was made.
use agent_permission_guard.Base.Outcome.{ok}
use agent_permission_guard.Base.{
  ==_refl, Text, text_eq, text_eq_refl, ℕ, ◌≡◌, refl, true, ◌&&◌, Option, none, some, List, [], ◌∷◌,
  arith,
}
use agent_permission_guard.Install.{InstallRequest, PackageMetadata}
use agent_permission_guard.Install.Machine.{
  Machine, Platform, Snapshot, is_digest, is_snapshot, are_snapshots,
}
use agent_permission_guard.Install.Plan.{Executable, Plan}
use agent_permission_guard.Install.Planner.{Environment, create}
use agent_permission_guard.Install.Planner.Made.{IsIdentity, IsPlanned, create-IsPlanned}
use agent_permission_guard.Install.Verifier.{
  validate_executable_identity, validate_install_plan_preconditions,
}

snapshot_refl : (s : Snapshot) → is_snapshot s s ≡ true
snapshot_refl s = digest_refl s.sha256
  where
    digest_refl :
        (d : Option Text) → (text_eq s.relative_path s.relative_path && is_digest d d) ≡ true
    digest_refl none = ground (arith, text_eq_refl s.relative_path)
    digest_refl (some t) = ground (arith, text_eq_refl s.relative_path, text_eq_refl t)

snapshots_refl : (xs : List Snapshot) → are_snapshots xs xs ≡ true
unfolding are_snapshots
snapshots_refl [] = refl
snapshots_refl (x ∷ xs) = ground (arith, snapshot_refl x, snapshots_refl xs)

module _ (p : Platform) (m : Machine) where
  identity-passes : (e : Executable) → IsIdentity p m e → validate_executable_identity p m e ≡ ok tt
  unfolding validate_executable_identity
  identity-passes e (bytes, r, h) = rw (r, h, text_eq_refl e.sha256) refl

  -- `realpath` of a path without links is the path itself.
  module _ (real : (s t : Text) → m.real_path s ≡ some t → m.real_path t ≡ some t) where
    IsPlanned-passes :
        (plan : Plan) → IsPlanned p m plan → validate_install_plan_preconditions p m plan ≡ ok tt
    unfolding validate_install_plan_preconditions
    IsPlanned-passes plan v =
        rw
          (
            v.hashed,
            text_eq_refl plan.plan_hash,
            real v.requested plan.body.working_directory v.resolved,
            v.at,
            text_eq_refl plan.body.working_directory,
            v.device,
            v.inode,
            ==_refl plan.body.working_directory_device,
            ==_refl plan.body.working_directory_inode,
            identity-passes plan.body.executable v.executable,
            identity-passes plan.body.runtime_executable v.runtime,
            v.files,
            snapshots_refl plan.body.before_files,
            v.no_npmrc,
          )
          refl

    -- A plan that `create` made passes `validateInstallPlanPreconditions` as long as the machine is as
    -- it was, if `realpath` gives a path that it has given before back as it is.
    pub create-validate :
        (environment : Environment) (clock : Option ℕ) (request : InstallRequest)
        → (metadata : PackageMetadata) (timeout_ms : ℕ) (plan : Plan)
        → create p m environment clock request metadata timeout_ms ≡ ok plan
        → validate_install_plan_preconditions p m plan ≡ ok tt
    create-validate environment clock request metadata timeout_ms plan h =
        IsPlanned-passes plan
          (create-IsPlanned p m environment clock request metadata timeout_ms plan h)
