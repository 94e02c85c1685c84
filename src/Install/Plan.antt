-- ===== src/Install/Plan.antt =====
-- install/types.ts: `InstallExecutionPlan`, and its hash, which install/execution-plan.ts and
-- install/verifier.ts compute of the plan without it.
use agent_permission_guard.Base.{
  Text, codes, decimal, ℕ, true, false, Option, none, some, List, [], ◌∷◌, map,
}
use agent_permission_guard.Json.{
  Value, bool, number, text, array, object, Items, nil, cons, Fields, end, entry,
}
use agent_permission_guard.Install.{Runner, npm, npx}
use agent_permission_guard.Audit.Canonical.{canonical_json}
use agent_permission_guard.Install.Machine.{Platform, Snapshot}

-- `InstallExecutableIdentity`
pub record Executable : Type 0 where
  pub path : Text
  pub sha256 : Text

-- `InstallExecutionPlan` without its hash.
pub record PlanBody : Type 0 where
  pub runner : Runner
  pub executable : Executable
  pub runtime_executable : Executable
  pub environment_path : Text
  pub arguments : List Text
  pub package_name : Text
  pub original_specifier : Text
  pub resolved_version : Text
  pub tarball_url : Text
  pub integrity : Text
  pub executable_bin : Option Text
  pub options : List Text
  pub working_directory : Text
  pub working_directory_device : ℕ
  pub working_directory_inode : ℕ
  pub registry : Text
  pub metadata_observed_at : Text
  pub lifecycle_scripts : List Text
  pub timeout_ms : ℕ
  pub before_files : List Snapshot

-- `InstallExecutionPlan`
pub record Plan : Type 0 where
  pub plan_hash : Text
  pub body : PlanBody

abbrev pub runner_name : Runner → Text
runner_name npm = codes "npm"
runner_name npx = codes "npx"

abbrev pub items : List Value → Items
items [] = nil
items (v ∷ vs) = cons v (items vs)

abbrev pub texts : List Text → Value
texts ts = array (items (map Value.text ts))

abbrev pub executable_value : Executable → Value
executable_value e =
    object (entry (codes "path") (text e.path) (entry (codes "sha256") (text e.sha256) end))

abbrev pub snapshot_value : Snapshot → Value
snapshot_value s = object (
    entry (codes "relativePath") (text s.relative_path) (elim s.sha256 [
      | none ↦ entry (codes "exists") (bool false) end
      | some h ↦ entry (codes "exists") (bool true) (entry (codes "sha256") (text h) end)
    ]))

abbrev pub with_bin : Option Text → Fields → Fields
with_bin none fs = fs
with_bin (some b) fs = entry (codes "executableBin") (text b) fs

-- The body as an object.
unfoldable pub body_value : PlanBody → Value
body_value b = object (
    entry (codes "runner") (text (runner_name b.runner)) (
      entry (codes "executable") (executable_value b.executable) (
        entry (codes "runtimeExecutable") (executable_value b.runtime_executable) (
          entry (codes "environmentPath") (text b.environment_path) (
            entry (codes "arguments") (texts b.arguments) (
              entry (codes "packageName") (text b.package_name) (
                entry (codes "originalSpecifier") (text b.original_specifier) (
                  entry (codes "resolvedVersion") (text b.resolved_version) (
                    entry (codes "tarballUrl") (text b.tarball_url) (
                      entry (codes "integrity") (text b.integrity) (
                        with_bin b.executable_bin (
                          entry (codes "options") (texts b.options) (
                            entry (codes "workingDirectory") (text b.working_directory) (
                              entry (codes "workingDirectoryDevice")
                                (number (decimal b.working_directory_device))
                                (entry (codes "workingDirectoryInode")
                                  (number (decimal b.working_directory_inode))
                                  (entry (codes "registry") (text b.registry) (
                                    entry (codes "metadataObservedAt") (text b.metadata_observed_at)
                                      (entry (codes "lifecycleScripts") (texts b.lifecycle_scripts)
                                        (entry (codes "timeoutMs") (number (decimal b.timeout_ms)) (
                                          entry (codes "beforeFiles")
                                            (array (items (map snapshot_value b.before_files)))
                                            end))))))))))))))))))))

-- The hash of a body.
unfoldable pub hash_of : Platform → PlanBody → Text
unfolding canonical_json body_value
hash_of p b = p.sha256 (canonical_json p.stringify (body_value b))
