-- ===== src/Tests/Gateways.antt =====
-- The gateway and the install guard on concrete inputs.
use agent_permission_guard.Install.Policy.{evaluate_install_policy}
use agent_permission_guard.Audit.Finish.{mark_completed}
use agent_permission_guard.Audit.Call.{
  begin, mark_approval_resolved, mark_forwarding, mark_approval_requested,
}
use agent_permission_guard.Base.{codes, text_eq, ℕ, ◌≡◌, refl, true, false, none, some, [], arith}
use agent_permission_guard.Audit.Records.{Env, ask, approved}
use agent_permission_guard.Gateway.{Inputs, handle_call}
use agent_permission_guard.Gateway.Guarded.{Justified, handle_call-Justified}
use agent_permission_guard.Install.{
  is_exact_version, InstallRequest, PackageMetadata, npm, resolved,
}
use agent_permission_guard.Install.Service.{InstallInputs, run_install, execution_completed}
use agent_permission_guard.Install.Service.Guarded.{was_run, Cleared, run_install-Cleared}

abbrev at : ℕ → Env
at n = record { now = n; accepts = true; commits = true }

abbrev approved_call : Inputs
approved_call = record {
  exact_required = true;
  is_exact = true;
  action = ask;
  approval_configured = true;
  ticket = some (codes "t1", 900);
  approval_outcome = approved;
  aborted = false;
  upstream = some false;
  aborted_upstream = false;
  projects = true;
  at_begin = at 1;
  at_request = at 2;
  at_resolution = at 3;
  at_block = at 4;
  at_forwarding = at 5;
  at_end = at 6;
  at_failure = at 7;
}

handle_call-Justified_example :
    ((handle_call approved_call).upstream_calls ≡ 1)
    × Justified approved_call (handle_call approved_call)
unfolding handle_call mark_approval_requested begin mark_approval_resolved text_eq mark_forwarding
    mark_completed
handle_call-Justified_example = handle_call-Justified approved_call (omega arith)

abbrev left_pad : PackageMetadata
left_pad = record {
  package_name = codes "left-pad";
  version = codes "1.3.0";
  registry = codes "https://registry.npmjs.org";
  observed_at = codes "2026-01-01";
  lifecycle_scripts = [];
  tarball_url = none;
  integrity = none;
  executable_bins = none;
  advisories = [];
  possible_typosquat = false;
  package_is_new = false;
  publisher_is_new = false;
  repository_missing = false;
  provenance_inconsistent = false;
  mutable_source = false;
  evidence_complete = true;
}

abbrev left_pad_request : InstallRequest
left_pad_request = record {
  runner = npm;
  package_name = codes "left-pad";
  requested_specifier = codes "latest";
  options = [];
  working_directory = codes "/tmp/p";
}

abbrev approved_install : InstallInputs
approved_install = record {
  resolution = some (resolved left_pad);
  plans = true;
  begins = true;
  requests = true;
  marks_requested = true;
  marks_resolved = true;
  marks_blocked = true;
  marks_executing = true;
  marks_completed = true;
  marks_failed = true;
  outcome = approved;
  execution = some (execution_completed, false);
}

run_install-Cleared_example :
    Cleared left_pad_request approved_install (run_install left_pad_request approved_install).trace
unfolding run_install was_run evaluate_install_policy text_eq is_exact_version
run_install-Cleared_example = run_install-Cleared left_pad_request approved_install refl
