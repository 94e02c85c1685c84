-- ===== src/Install/Service.antt =====
-- install/service.ts: `InstallGuardService.run`. What it calls is in `InstallInputs`: what each
-- call gives, or that it throws. The trace has the effects, the newest first.
pub mod Guarded
use agent_permission_guard.Base.{
  if◌then◌else◌, Text, codes, text_eq, ◌+◌, Bool, true, false, ◌||◌, not, Option, none, some, List,
  [], ◌∷◌, ◌++◌,
}
use agent_permission_guard.Policy.Schema.{Decision}
use agent_permission_guard.Audit.Records.{ApprovalOutcome, approved, denied, expired}
use agent_permission_guard.Install.{
  InstallRequest, Resolution, resolved, unresolved, unavailable, contradictory, is_exact_version,
}
use agent_permission_guard.Install.Policy.{
  local_install_execution, execution_requires_resolved_metadata, InstallEvaluation,
  evaluate_install_policy,
}

pub data ExecutionStatus : Type 0 where
  execution_completed execution_failed execution_timed_out execution_cancelled : ExecutionStatus

pub data InstallStatus : Type 0 where
  ended_as : ExecutionStatus → InstallStatus
  verification_failed audit_failed : InstallStatus
  install_denied approval_denied approval_expired approval_cancelled : InstallStatus

pub data InstallEvent : Type 0 where
  begun approval_requested executing runner_called marked_completed : InstallEvent
  approval_resolved : ApprovalOutcome → InstallEvent
  marked_blocked : InstallStatus → InstallEvent
  marked_failed : Text → InstallEvent

pub record InstallInputs : Type 0 where
  -- `metadata.resolve`, and whether the planner makes a plan.
  pub resolution : Option Resolution
  pub plans : Bool
  -- Whether `audit.begin`, `approvals.request` and each `audit.mark…` return.
  pub begins : Bool
  pub requests : Bool
  pub marks_requested : Bool
  pub marks_resolved : Bool
  pub marks_blocked : Bool
  pub marks_executing : Bool
  pub marks_completed : Bool
  pub marks_failed : Bool
  -- The outcome of the ticket, which an abort has cancelled.
  pub outcome : ApprovalOutcome
  -- The runner's result and whether its verification failed; `none` if it throws.
  pub execution : Option (ExecutionStatus × Bool)

-- What was done, whether the ticket was cancelled, and the status; `none` for an exception.
pub record Ran : Type 0 where
  pub trace : List InstallEvent
  pub ticket_cancelled : Bool
  pub status : Option InstallStatus

abbrev pub ended : List InstallEvent → Option InstallStatus → Ran
ended trace status = record { trace = trace; ticket_cancelled = false; status = status }

-- A method of the audit, which throws unless `ok`.
abbrev pub audited : Bool → InstallEvent → List InstallEvent → (List InstallEvent → Ran) → Ran
audited ok e trace next = if ok then next (e ∷ trace) else ended trace none

abbrev pub execution_status : ExecutionStatus → Bool → InstallStatus
execution_status execution_completed true = verification_failed
execution_status s _ = ended_as s

-- Behind `runner.run`.
unfoldable pub after_execution :
    InstallInputs → Option (ExecutionStatus × Bool) → List InstallEvent → Ran
after_execution i none trace =
    audited i.marks_failed (marked_failed (codes "install_runner_failed")) trace
      (λ t. ended t (some (ended_as execution_failed)))
after_execution i (some (s, unverified)) trace =
    if i.marks_completed
    then ended (marked_completed ∷ trace) (some (execution_status s unverified))
    else if i.marks_failed
    then ended (marked_failed (codes "install_audit_completion_failed") ∷ trace) (some audit_failed)
    else ended trace (some audit_failed)

unfoldable pub execute : InstallInputs → List InstallEvent → Ran
unfolding after_execution
execute i trace =
    audited i.marks_executing executing trace
      (λ t. after_execution i i.execution (runner_called ∷ t))

abbrev pub outcome_status : ApprovalOutcome → InstallStatus
outcome_status denied = approval_denied
outcome_status expired = approval_expired
outcome_status _ = approval_cancelled

unfoldable pub after_outcome : InstallInputs → ApprovalOutcome → List InstallEvent → Ran
unfolding execute
after_outcome i approved trace = execute i trace
after_outcome i o trace =
    audited i.marks_blocked (marked_blocked (outcome_status o)) trace
      (λ t. ended t (some (outcome_status o)))

-- The exception of `approvals.request` or `markApprovalRequested` is thrown on.
unfoldable pub approval_unavailable : InstallInputs → Bool → List InstallEvent → Ran
approval_unavailable i cancels trace =
    record (audited i.marks_failed (marked_failed (codes "install_approval_unavailable")) trace
      (λ t. ended t none)) { ticket_cancelled = cancels }

unfoldable pub ask_install : InstallInputs → List InstallEvent → Ran
unfolding after_outcome approval_unavailable
ask_install i trace =
    if not i.requests
    then approval_unavailable i false trace
    else if not i.marks_requested
    then approval_unavailable i true trace
    else audited i.marks_resolved (approval_resolved i.outcome) (approval_requested ∷ trace)
        (after_outcome i i.outcome)

-- `validateInstallResolution`; the snapshot of the metadata is a copy.
unfoldable pub validate_resolution : InstallRequest → Resolution → Resolution
validate_resolution request (resolved m) =
    if not (text_eq m.package_name request.package_name) || not (is_exact_version m.version)
    then contradictory (codes "Resolved metadata does not match the requested package identity")
    else resolved m
validate_resolution request (unresolved reason) = unresolved reason
validate_resolution request (unavailable reason) =
    if not (is_exact_version request.requested_specifier)
    then unresolved (codes "Metadata failed before the mutable version could be resolved exactly")
    else unavailable reason
validate_resolution request (contradictory reason) =
    if not (is_exact_version request.requested_specifier)
    then unresolved (codes "Metadata failed before the mutable version could be resolved exactly")
    else contradictory reason

abbrev pub is_resolved : Resolution → Bool
is_resolved (resolved m) = true
is_resolved _ = false

-- `executionEvaluation`; the built-in policy wants an approval of every execution, and
-- `evaluateInstallPolicy` never gives the reason `local_install_execution`.
unfoldable pub execution_evaluation : Bool → InstallEvaluation → InstallEvaluation
execution_evaluation is_resolved e = decide_execution e.effective_decision
  where
    decide_execution : Decision → InstallEvaluation
    decide_execution Decision.deny = e
    decide_execution _ =
        if not is_resolved
        then record e {
          effective_decision = Decision.deny;
          reason_codes = e.reason_codes ++ execution_requires_resolved_metadata ∷ [];
        }
        else record e {
          effective_decision = Decision.ask;
          reason_codes = e.reason_codes ++ local_install_execution ∷ [];
        }

-- Behind the evaluation: a plan, and the call of the audit with it.
unfoldable pub run_decided : InstallInputs → Decision → List InstallEvent → Ran
unfolding ask_install execute
run_decided i Decision.ask trace = ask_install i trace
run_decided i _ trace = execute i trace

unfoldable pub run_evaluated : InstallInputs → Bool → Decision → Ran
unfolding run_decided
run_evaluated i is_resolved Decision.deny = audited i.begins begun [] (λ t.
    audited i.marks_blocked (marked_blocked install_denied) t (λ u. ended u (some install_denied)))
run_evaluated i is_resolved d =
    if not is_resolved
    then ended [] none
    else if i.plans
    then audited i.begins begun [] (run_decided i d)
    else audited i.begins begun [] (λ t.
      audited i.marks_failed (marked_failed (codes "install_plan_failed")) t
        (λ u. ended u (some (ended_as execution_failed))))

unfoldable pub evaluate_install : InstallRequest → Resolution → InstallEvaluation
unfolding execution_evaluation validate_resolution
evaluate_install request r =
    let checked = validate_resolution request r in
    execution_evaluation (is_resolved checked) (evaluate_install_policy checked)

unfoldable pub run_resolved : InstallRequest → InstallInputs → Option Resolution → Ran
unfolding evaluate_install run_evaluated
run_resolved request i none = ended [] none
run_resolved request i (some r) =
    run_evaluated i (is_resolved (validate_resolution request r))
      (evaluate_install request r).effective_decision

unfoldable pub run_install : InstallRequest → InstallInputs → Ran
unfolding run_resolved
run_install request i = run_resolved request i i.resolution
