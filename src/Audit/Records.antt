-- ===== src/Audit/Records.antt =====
-- The data of audit/recorder.ts and the parts of the receipts of audit/receipt.ts on which it
-- branches. Times are milliseconds. What a receipt repeats of the decision and its context is left
-- out.
use agent_permission_guard.Base.{Text, ℕ, Bool, true, false, Option, List}

pub data Boundary : Type 0 where
  mcp_proxy_call install_guard_plan graph_genesis_plan generic_boundary : Boundary

-- `decision.action`.
pub data Action : Type 0 where
  forward ask deny : Action

-- `ApprovalOutcome` of approval/types.ts.
pub data ApprovalOutcome : Type 0 where
  approved denied expired cancelled : ApprovalOutcome

-- The outcome field of `ReceiptApproval`.
pub data ApprovalState : Type 0 where
  not_required not_requested pending unavailable : ApprovalState
  resolved : ApprovalOutcome → ApprovalState

pub record ReceiptApproval : Type 0 where
  pub required : Bool
  pub outcome : ApprovalState
  pub request_id : Option Text

pub data BlockedStatus : Type 0 where
  blocked_denied blocked_unavailable blocked_approval_denied : BlockedStatus
  blocked_approval_expired blocked_approval_cancelled : BlockedStatus

pub data AuthorizationStatus : Type 0 where
  authorized blocked failed_pre_dispatch : AuthorizationStatus

pub data ReasonCode : Type 0 where
  approval_approved policy_allowed dispatch_recorded : ReasonCode
  blocked_by : BlockedStatus → ReasonCode
  failed_by : Text → ReasonCode

pub record AuthorizationReceipt : Type 0 where
  pub issued_at : ℕ
  pub approval : ReceiptApproval
  pub status : AuthorizationStatus
  pub reason_code : ReasonCode

pub data TerminalStatus : Type 0 where
  completed execution_error upstream_error cancelled_execution failed audit_failed : TerminalStatus
  incomplete_external_read outcome_unknown_after_interruption : TerminalStatus

pub record OutcomeReceipt : Type 0 where
  pub authorization : AuthorizationReceipt
  pub started_at : ℕ
  pub terminal_status : TerminalStatus
  pub completed_at : ℕ

-- The status column of `tool_calls`.
pub data CallStatus : Type 0 where
  status_evaluated status_authorized status_forwarding status_approval_pending : CallStatus
  status_resolved : ApprovalOutcome → CallStatus
  status_blocked : BlockedStatus → CallStatus
  status_finished : TerminalStatus → CallStatus

pub data AuditEvent : Type 0 where
  decision_recorded graph_genesis_authorization_ready : AuditEvent
  authorization_receipt_finalized : AuthorizationReceipt → AuditEvent
  execution_start_recorded : AuthorizationReceipt → AuditEvent
  approval_requested : Text → ℕ → AuditEvent
  approval_resolved : ApprovalOutcome → Text → AuditEvent
  call_blocked : BlockedStatus → AuditEvent
  execution_completed : TerminalStatus → AuditEvent
  outcome_receipt_finalized : OutcomeReceipt → AuditEvent
  graph_genesis_complete graph_genesis_incomplete : AuditEvent
  execution_failed : Text → AuditEvent
  evidence : Text → AuditEvent

-- A row of `approvals`; `none` is the status 'pending'.
pub record ApprovalRow : Type 0 where
  pub id : Text
  pub status : Option ApprovalOutcome
  pub expires_at : ℕ
  pub decided_at : Option ℕ

-- What the database holds of one call; the newest event stands first.
pub record CallRows : Type 0 where
  pub status : CallStatus
  pub latency_ms : Option ℕ
  pub error_code : Option Text
  pub approvals : List ApprovalRow
  pub events : List AuditEvent

-- The closure that `begin` returns, with the rows that it writes.
pub record AuditCall : Type 0 where
  pub boundary : Boundary
  pub started_at : ℕ
  pub terminal : Bool
  pub dispatched : Bool
  pub execution_started_at : Option ℕ
  pub authorization : Option AuthorizationReceipt
  pub approval : ReceiptApproval
  pub rows : CallRows

pub data CallError : Type 0 where
  already_terminal already_dispatched already_finalized not_approved not_pending : CallError
  not_authorized wrong_boundary receipt_invalid database_failed evidence_invalid : CallError
  summary_invalid : CallError

-- A method that returns, or throws; the closure keeps what it assigned before it threw.
pub data Step : Type 0 where
  done : AuditCall → Step
  threw : CallError → AuditCall → Step

-- What is not the recorder's: the clock, whether the receipt's schema accepts what is built, and
-- whether SQLite commits the transaction. One that fails leaves the database as it was.
pub record Env : Type 0 where
  pub now : ℕ
  pub accepts : Bool
  pub commits : Bool

abbrev pub after : Step → AuditCall
after (done c) = c
after (threw e c) = c

abbrev pub returned : Step → Bool
returned (done c) = true
returned (threw e c) = false
