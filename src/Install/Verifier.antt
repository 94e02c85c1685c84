-- ===== src/Install/Verifier.antt =====
-- install/verifier.ts
pub mod Fresh
pub mod Unchanged
pub mod Recorded
use agent_permission_guard.Install.{Runner, npm, npx}
use agent_permission_guard.Json.{Value, text, object, Fields, end, entry}
use agent_permission_guard.Base.Outcome.{ok, refuse, ◌>>=◌, ◌>>◌}
use agent_permission_guard.Base.{
  ◌==◌, if◌then◌else◌, Text, codes, text_eq, Bool, true, false, ◌&&◌, ◌||◌, not, Option, none, some,
  List, [], ◌∷◌, ◌++◌,
}
use agent_permission_guard.Install.Machine.{
  Machine, Platform, io_failed, plan_identity, directory_changed, executable_changed, files_changed,
  npmrc_appeared, Planned, or_failed, is_none, Snapshot, is_snapshot, are_snapshots,
  snapshot_known_install_files,
}
use agent_permission_guard.Install.Plan.{Executable, PlanBody, Plan, hash_of}

module _ (p : Platform) (m : Machine) where
  -- `validateExecutableIdentity`
  unfoldable pub validate_executable_identity : Executable → Planned (Unit {0})
  unfolding text_eq
  validate_executable_identity e = do
    bytes ← or_failed io_failed (m.read_file e.path)
    refuse (not (text_eq (p.sha256 bytes) e.sha256)) executable_changed

  -- `validateInstallPlanPreconditions`
  unfoldable pub validate_install_plan_preconditions : Plan → Planned (Unit {0})
  unfolding hash_of text_eq validate_executable_identity snapshot_known_install_files are_snapshots
  validate_install_plan_preconditions plan = do
    let body = plan.body
    refuse (not (text_eq (hash_of p body) plan.plan_hash)) plan_identity
    directory ← or_failed io_failed (m.real_path body.working_directory)
    stats ← or_failed io_failed (m.stat directory)
    refuse
        (not (text_eq directory body.working_directory)
          || not (stats.device == body.working_directory_device)
          || not (stats.inode == body.working_directory_inode))
        directory_changed
    validate_executable_identity body.executable
    validate_executable_identity body.runtime_executable
    current ← snapshot_known_install_files p m body.working_directory
    refuse (not (are_snapshots current body.before_files)) files_changed
    refuse (not (is_none (m.stat (p.join body.working_directory (codes ".npmrc"))))) npmrc_appeared

pub data VerificationStatus : Type 0 where
  verified failed limited : VerificationStatus

-- What a lockfile was seen to say of the package.
pub record Observed : Type 0 where
  pub exact_package_version : Bool
  pub approved_integrity : Bool

-- `InstallVerificationResult`
pub record Verification : Type 0 where
  pub status : VerificationStatus
  pub observed : Observed
  pub changed_files : List Text
  pub reason_codes : List Text

-- `asRecord`
abbrev pub as_record : Option Value → Option Fields
as_record (some (object fs)) = some fs
as_record _ = none

unfoldable pub property_in : Text → Fields → Option Value
unfolding text_eq
property_in key end = none
property_in key (entry other v rest) =
    let found = property_in key rest in if text_eq key other then some v else found

-- `record?.[key]`
abbrev pub property : Text → Option Fields → Option Value
property key none = none
property key (some fs) = property_in key fs

-- `value === text`
abbrev pub is_text : Option Value → Text → Bool
is_text (some (text t)) s = text_eq t s
is_text _ s = false

-- The files that have changed, of those before in the same order.
unfoldable pub changed_files_of : List Snapshot → List Snapshot → List Text
unfolding text_eq
changed_files_of [] before = []
changed_files_of (a ∷ after) [] = a.relative_path ∷ changed_files_of after []
changed_files_of (a ∷ after) (b ∷ before) =
    let rest = changed_files_of after before in
    if is_snapshot a b then rest else a.relative_path ∷ rest

abbrev pub not_observed : Observed
not_observed = record { exact_package_version = false; approved_integrity = false }

abbrev pub seen_in : PlanBody → Option Fields → Observed
seen_in b record_of = record {
  exact_package_version = true;
  approved_integrity = is_text (property (codes "integrity") record_of) b.integrity;
}

-- What the record of a lockfile says; none if it has no such version.
unfoldable pub observed_in : PlanBody → Option Fields → Option Observed
unfolding property_in text_eq
observed_in b lockfile =
    let package_entry = as_record (
      property (codes "node_modules/" ++ b.package_name)
        (as_record (property (codes "packages") lockfile))) in
    let dependency =
      as_record (property b.package_name (as_record (property (codes "dependencies") lockfile))) in
    if is_text (property (codes "version") package_entry) b.resolved_version
    then some (seen_in b package_entry)
    else if is_text (property (codes "version") dependency) b.resolved_version
    then some (seen_in b dependency)
    else none

abbrev pub or_observed : Option Observed → Observed → Observed
or_observed none rest = rest
or_observed (some o) rest = o

-- The files that `inspectLockfileIdentity` looks into.
abbrev pub lockfiles : List Text
lockfiles = codes "npm-shrinkwrap.json" ∷ codes "package-lock.json" ∷ []

abbrev pub status_of : Observed → VerificationStatus
status_of o = if o.exact_package_version && o.approved_integrity then verified else failed

abbrev pub reason_unless : Bool → Text → List Text
reason_unless true reason = []
reason_unless false reason = reason ∷ []

abbrev pub limited_by : Text → List Text → Verification
limited_by reason changed = record {
  status = limited;
  observed = not_observed;
  changed_files = changed;
  reason_codes = reason ∷ [];
}

module _ (p : Platform) (m : Machine) where
  abbrev pub parsed_file : Option Text → Option Value
  parsed_file none = none
  parsed_file (some bytes) = p.parse_json bytes

  unfoldable pub inspect_lockfiles : PlanBody → List Text → Observed
  unfolding observed_in
  inspect_lockfiles b [] = not_observed
  inspect_lockfiles b (name ∷ names) =
      or_observed
        (observed_in b (as_record (parsed_file (m.read_file (p.join b.working_directory name)))))
        (inspect_lockfiles b names)

  -- `inspectLockfileIdentity`
  unfoldable pub inspect_lockfile_identity : PlanBody → Observed
  unfolding inspect_lockfiles
  inspect_lockfile_identity b = inspect_lockfiles b lockfiles

  abbrev pub judged : List Text → Observed → Verification
  judged changed o = record {
    status = status_of o;
    observed = o;
    changed_files = changed;
    reason_codes =
        reason_unless o.exact_package_version (codes "exact_version_not_observed")
        ++ reason_unless o.approved_integrity (codes "approved_integrity_not_observed");
  }

  abbrev pub verification_of : PlanBody → List Text → Bool → Runner → Verification
  verification_of b changed false runner = limited_by (codes "process_not_completed") changed
  verification_of b changed true npx = limited_by (codes "npx_effects_not_contained") changed
  verification_of b changed true npm = judged changed (inspect_lockfile_identity b)

  -- `verifyInstallExecution`
  unfoldable pub verify_install_execution : Plan → Bool → Planned Verification
  unfolding changed_files_of inspect_lockfile_identity snapshot_known_install_files
  verify_install_execution plan process_completed = do
    after ← snapshot_known_install_files p m plan.body.working_directory
    ok (
        verification_of plan.body (changed_files_of after plan.body.before_files) process_completed
          plan.body.runner)
