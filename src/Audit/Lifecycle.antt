-- ===== src/Audit/Lifecycle.antt =====
-- The life of an audit call: what any sequence of its methods does, in any environment.
pub mod Invariant
pub mod Frozen
use agent_permission_guard.Base.{Text, ℕ, suc, Bool, true, false, Option, List, [], ◌∷◌}
use agent_permission_guard.Audit.Records.{
  ApprovalOutcome, approved, BlockedStatus, TerminalStatus, AuditEvent, execution_start_recorded,
  approval_resolved, call_blocked, outcome_receipt_finalized, AuditCall, Step, Env, after,
}
use agent_permission_guard.Audit.Call.{
  mark_authorized, mark_execution_started, mark_forwarding, mark_approval_requested,
  mark_approval_resolved, mark_blocked,
}
use agent_permission_guard.Audit.Finish.{
  mark_completed, mark_execution_result, finalize_graph_genesis_outcome, mark_failed,
  append_evidence,
}

-- A call of a method of `AuditCall`.
pub data Method : Type 0 where
  authorize start_execution dispatch : Method
  request_approval : Text → ℕ → Method
  resolve_approval : Text → ApprovalOutcome → Method
  block : BlockedStatus → Method
  complete execution_result : Bool → Method
  finalize_graph : Bool → TerminalStatus → Option Text → Method
  fail_call : Text → Method
  add_evidence : Text → ℕ → Method

unfoldable pub invoke : Env → Method → AuditCall → Step
invoke e authorize c = mark_authorized e c
invoke e start_execution c = mark_execution_started e c
invoke e dispatch c = mark_forwarding e c
invoke e (request_approval id expires_at) c = mark_approval_requested e id expires_at c
invoke e (resolve_approval id outcome) c = mark_approval_resolved e id outcome c
invoke e (block status) c = mark_blocked e status c
invoke e (complete is_error) c = mark_completed e is_error c
invoke e (execution_result is_error) c = mark_execution_result e is_error c
invoke e (finalize_graph ok status code) c = finalize_graph_genesis_outcome e ok status code c
invoke e (fail_call code) c = mark_failed e code c
invoke e (add_evidence event_type json_bytes) c = append_evidence e event_type json_bytes c

-- What a caller reaches that goes on after a method has thrown.
unfoldable pub run : List (Env × Method) → AuditCall → AuditCall
unfolding invoke
run [] c = c
run ((e, m) ∷ ms) c = run ms (after (invoke e m c))

-- How often the log records a start of the execution, an outcome and a block.
unfoldable pub starts : List AuditEvent → ℕ
starts [] = 0
starts (execution_start_recorded r ∷ events) = suc (starts events)
starts (_ ∷ events) = starts events

unfoldable pub outcomes : List AuditEvent → ℕ
outcomes [] = 0
outcomes (outcome_receipt_finalized r ∷ events) = suc (outcomes events)
outcomes (_ ∷ events) = outcomes events

unfoldable pub blocks : List AuditEvent → ℕ
blocks [] = 0
blocks (call_blocked s ∷ events) = suc (blocks events)
blocks (_ ∷ events) = blocks events

-- The log records that a human approved the call.
unfoldable pub was_approved : List AuditEvent → Bool
was_approved [] = false
was_approved (approval_resolved approved id ∷ events) = true
was_approved (_ ∷ events) = was_approved events
