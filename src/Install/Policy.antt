-- ===== src/Install/Policy.antt =====
-- install/policy.ts: the built-in policy of the install guard.
use agent_permission_guard.Base.{
  leb, if◌then◌else◌, any, ℕ, Bool, true, false, ◌&&◌, List, [], ◌∷◌, ◌++◌, map,
}
use agent_permission_guard.Policy.Schema.{Decision}
use agent_permission_guard.Install.{Resolution}
use agent_permission_guard.Install.Risk.{
  SignalCode, exact_version_unresolved, metadata_unavailable, metadata_contradictory,
  has_lifecycle_scripts, high_advisory, critical_advisory, is_possible_typosquat, is_mutable_source,
  limited_registry_evidence, InstallSignal, InstallAssessment, score_install_risk,
}

-- `INSTALL_POLICY_MODEL.denySignals` and `.askSignals`
unfoldable pub is_deny_signal : SignalCode → Bool
is_deny_signal exact_version_unresolved = true
is_deny_signal critical_advisory = true
is_deny_signal _ = false

unfoldable pub is_ask_signal : SignalCode → Bool
is_ask_signal metadata_unavailable = true
is_ask_signal metadata_contradictory = true
is_ask_signal has_lifecycle_scripts = true
is_ask_signal high_advisory = true
is_ask_signal is_possible_typosquat = true
is_ask_signal is_mutable_source = true
is_ask_signal limited_registry_evidence = true
is_ask_signal _ = false

abbrev pub risk_escalation_threshold : ℕ
risk_escalation_threshold = 50

pub data InstallReason : Type 0 where
  raised : SignalCode → InstallReason
  install_risk_escalation verified_registry_package : InstallReason
  local_install_execution execution_requires_resolved_metadata : InstallReason

pub record InstallEvaluation : Type 0 where
  pub effective_decision : Decision
  pub reason_codes : List InstallReason
  pub risk : InstallAssessment

unfoldable pub strictest_decision : List InstallSignal → Decision
unfolding is_deny_signal is_ask_signal
strictest_decision signals =
    if any (λ s. is_deny_signal s.code) signals
    then Decision.deny
    else if any (λ s. is_ask_signal s.code) signals
    then Decision.ask
    else Decision.allow

abbrev pub is_allowed : Decision → Bool
is_allowed Decision.allow = true
is_allowed _ = false

abbrev pub reasons : List InstallSignal → Bool → List InstallReason
reasons [] escalates = verified_registry_package ∷ []
reasons (s ∷ ss) escalates =
    map (λ t. raised t.code) (s ∷ ss) ++ (if escalates then install_risk_escalation ∷ [] else [])

unfoldable pub evaluate_install_policy : Resolution → InstallEvaluation
unfolding score_install_risk strictest_decision
evaluate_install_policy r =
    let risk = score_install_risk r in
    let decision = strictest_decision risk.signals in
    let escalates = is_allowed decision && leb risk_escalation_threshold risk.score in
    record {
      effective_decision = if escalates then Decision.ask else decision;
      reason_codes = reasons risk.signals escalates;
      risk = risk;
    }
