-- ===== src/Stage/Results.antt =====
-- `PackageStageError` of stage/profile.ts, the results that carry it, and the limits of a stage.
pub use agent_permission_guard.Base.Outcome.{
  Outcome, ok, throws, refuse, ◌>>=◌, ◌>>◌, refuse-eq-ok, bind-eq-ok, ok-injective,
}
use agent_permission_guard.Base.{leb, ℕ, ◌-◌, ◌*◌, ◌^◌, Bool}

-- `PackageStageErrorCode`
pub data StageError : Type 0 where
  profile_unknown profile_invalid profile_digest_mismatch profile_not_authenticated : StageError
  plan_invalid plan_not_authenticated approval_invalid approval_consumed : StageError
  integrity_invalid integrity_mismatch artifact_too_large artifact_cancelled : StageError
  archive_invalid archive_limit_exceeded archive_worker_failed archive_worker_timeout : StageError
  archive_protocol_invalid materialization_failed stage_seal_invalid tree_invalid : StageError
  tree_changed state_transition_invalid stage_not_authenticated stage_audit_incomplete : StageError
  graph_lock_invalid graph_metadata_invalid graph_metadata_incomplete metadata_expired : StageError
  artifact_plan_invalid artifact_file_invalid artifact_cleanup_incomplete : StageError
  manifest_invalid manifest_mismatch acceptance_incomplete : StageError

-- A function of the stage that returns or throws a `PackageStageError`.
abbrev pub Result {ℓ} : Type ℓ → Type ℓ
Result A = Outcome StageError A

-- `PackageStageLimits`
pub record StageLimits : Type 0 where
  pub graph_nodes : ℕ
  pub compressed_artifact_bytes : ℕ
  pub total_compressed_bytes : ℕ
  pub uncompressed_artifact_bytes : ℕ
  pub total_uncompressed_bytes : ℕ
  pub regular_file_bytes : ℕ
  pub archive_entries : ℕ
  pub relative_path_bytes : ℕ
  pub path_depth : ℕ

-- `PACKAGE_STAGE_HARD_CEILINGS`
abbrev pub hard_ceilings : StageLimits
hard_ceilings = record {
  graph_nodes = 256;
  compressed_artifact_bytes = 50 * 1024 * 1024;
  total_compressed_bytes = 512 * 1024 * 1024;
  uncompressed_artifact_bytes = 256 * 1024 * 1024;
  total_uncompressed_bytes = 1024 * 1024 * 1024;
  regular_file_bytes = 64 * 1024 * 1024;
  archive_entries = 100000;
  relative_path_bytes = 512;
  path_depth = 32;
}

abbrev pub max_safe_integer : ℕ
max_safe_integer = 2 ^ 53 - 1

-- `Number.isSafeInteger` of a number that is not negative.
abbrev pub is_safe : ℕ → Bool
is_safe n = leb n max_safe_integer
