-- ===== src/Audit/Finish.antt =====
-- The methods of `AuditCall` in audit/recorder.ts that end a dispatched call.
use agent_permission_guard.Base.{
  ltb, leb, ◌==◌, if◌then◌else◌, length, all, drop, Text, codes, text_eq, ℕ, Bool, true, false,
  ◌&&◌, ◌||◌, not, Option, none, some, List, [], ◌∷◌, ◌++◌,
}
use agent_permission_guard.Audit.Records.{
  ApprovalState, not_requested, pending, unavailable, ReceiptApproval, authorized,
  failed_pre_dispatch, dispatch_recorded, failed_by, AuthorizationReceipt, TerminalStatus,
  completed, execution_error, upstream_error, cancelled_execution, failed, audit_failed,
  incomplete_external_read, OutcomeReceipt, status_finished, AuditEvent,
  authorization_receipt_finalized, execution_completed, outcome_receipt_finalized,
  graph_genesis_complete, graph_genesis_incomplete, execution_failed, evidence, AuditCall,
  already_terminal, not_authorized, wrong_boundary, receipt_invalid, evidence_invalid,
  summary_invalid, Step, done, threw, Env,
}
use agent_permission_guard.Audit.Call.{
  is_graph_genesis, is_some, build_authorization, append_events, finish, commit,
}

unfoldable pub build_outcome : AuthorizationReceipt → ℕ → TerminalStatus → ℕ → OutcomeReceipt
build_outcome receipt started status now = record {
  authorization = receipt;
  started_at = started;
  terminal_status = status;
  completed_at = now;
}

-- What `!dispatched || authorization === undefined || executionStartedAt === undefined` leaves.
unfoldable pub ready : AuditCall → Option (AuthorizationReceipt × ℕ)
ready c = elim c.authorization [
  | none ↦ none
  | some receipt ↦ elim c.execution_started_at [
    | none ↦ none
    | some started ↦ if c.dispatched then some (receipt, started) else none
  ]
]

-- The outcome receipt and the row, with the events that stand before it, in one transaction.
unfoldable pub end_with :
    Env
    → AuditCall
    → AuthorizationReceipt × ℕ
    → TerminalStatus
    → List AuditEvent
    → Option Text
    → Step
unfolding build_outcome commit finish
end_with e c (receipt, started) status events code =
    if not e.accepts
    then threw receipt_invalid c
    else commit e c
        (append_events
          (events ++ outcome_receipt_finalized (build_outcome receipt started status e.now) ∷ [])
          (finish (status_finished status) c.started_at e.now code c.rows))
        (λ d. record d { terminal = true })

unfoldable pub mark_completed : Env → Bool → AuditCall → Step
unfolding ready end_with
mark_completed e is_error c = if c.terminal then threw already_terminal c else elim (ready c) [
  | none ↦ threw not_authorized c
  | some started ↦
      let status = if is_error then upstream_error else completed in
      end_with e c started status (execution_completed status ∷ []) none
]

unfoldable pub mark_execution_result : Env → Bool → AuditCall → Step
unfolding ready end_with is_graph_genesis
mark_execution_result e is_error c =
    if c.terminal then threw already_terminal c else elim (ready c) [
      | none ↦ threw not_authorized c
      | some started ↦
          if is_graph_genesis c.boundary
          then threw wrong_boundary c
          else let status = if is_error then execution_error else completed in
            end_with e c started status (execution_completed status ∷ []) none
    ]

abbrev pub is_completed : TerminalStatus → Bool
is_completed completed = true
is_completed _ = false

-- `summary_ok` is the verdict of `assertGraphGenesisExecutionSummary` on the summary and the status.
unfoldable pub finalize_graph_genesis_outcome :
    Env → Bool → TerminalStatus → Option Text → AuditCall → Step
unfolding ready end_with is_graph_genesis
finalize_graph_genesis_outcome e summary_ok status code c =
    if c.terminal
    then threw already_terminal c
    else if not (is_graph_genesis c.boundary)
    then threw wrong_boundary c
    else elim (ready c) [
      | none ↦ threw not_authorized c
      | some started ↦
          if not summary_ok
          then threw summary_invalid c
          else end_with e c started status
              ((if is_completed status then graph_genesis_complete else graph_genesis_incomplete)
                ∷ execution_completed status
                ∷ [])
              code
    ]

-- `String.prototype.includes`.
unfoldable pub starts_with : Text → Text → Bool
starts_with [] s = true
starts_with (a ∷ w) [] = false
starts_with (a ∷ w) (c ∷ s) = a == c && starts_with w s

unfoldable pub includes : Text → Text → Bool
unfolding starts_with
includes w [] = starts_with w []
includes w (c ∷ s) = starts_with w (c ∷ s) || includes w s

unfoldable pub terminal_status_for_failure : Text → TerminalStatus
unfolding includes
terminal_status_for_failure code =
    if text_eq code (codes "upstream_error")
    then upstream_error
    else if text_eq code (codes "cancelled")
    then cancelled_execution
    else if includes (codes "audit_completion_failed") code
    then audit_failed
    else if text_eq code (codes "incomplete_external_read")
    then incomplete_external_read
    else failed

abbrev pub is_unanswered : ApprovalState → Bool
is_unanswered not_requested = true
is_unanswered pending = true
is_unanswered _ = false

unfoldable pub failed_approval : ReceiptApproval → Text → ReceiptApproval
unfolding includes
failed_approval a code =
    if a.required && is_unanswered a.outcome && includes (codes "approval_unavailable") code
    then record a { outcome = unavailable }
    else a

-- The receipt that is new, if the call has none yet.
unfoldable pub failure_authorization : Env → Text → AuditCall → AuthorizationReceipt
failure_authorization e code c = elim c.authorization [
  | some receipt ↦ receipt
  | none ↦
      if c.dispatched
      then build_authorization c authorized dispatch_recorded e.now
      else build_authorization c failed_pre_dispatch (failed_by code) e.now
]

unfoldable pub failure_outcome : Env → Text → AuthorizationReceipt → AuditCall → List AuditEvent
unfolding build_outcome terminal_status_for_failure
failure_outcome e code receipt c =
    if c.dispatched
    then elim c.execution_started_at [
      | none ↦ []
      | some started ↦
          outcome_receipt_finalized
            (build_outcome receipt started (terminal_status_for_failure code) e.now)
          ∷ []
    ]
    else []

unfoldable pub mark_failed : Env → Text → AuditCall → Step
unfolding failed_approval failure_authorization failure_outcome build_authorization commit finish
mark_failed e code c =
    if c.terminal
    then done c
    else let d = record c { approval = failed_approval c.approval code } in
      let receipt = failure_authorization e code d in
      if not e.accepts
      then threw receipt_invalid d
      else commit e d
          (append_events
            ((if is_graph_genesis c.boundary then graph_genesis_incomplete ∷ [] else [])
              ++ (execution_failed code
                  ∷ ((if is_some c.authorization
                        then []
                        else authorization_receipt_finalized receipt ∷ [])
                      ++ failure_outcome e code receipt d)))
            (finish (status_finished failed) c.started_at e.now (some code) c.rows))
          (λ f. record f { authorization = some receipt; terminal = true })

is_evidence_char : ℕ → Bool
is_evidence_char c = (leb b'a' c && leb c b'z') || (leb b'0' c && leb c b'9') || c == b'_'

-- `/^graph_genesis_[a-z0-9_]{1,64}$/`.
unfoldable pub is_evidence_type : Text → Bool
unfolding starts_with is_evidence_char
is_evidence_type s =
    let rest = drop 14 s in
    starts_with (codes "graph_genesis_") s
    && leb 1 (length rest)
    && leb (length rest) 64
    && all is_evidence_char rest

-- `json_bytes` is the length of the redacted details as canonical JSON.
unfoldable pub append_evidence : Env → Text → ℕ → AuditCall → Step
unfolding is_evidence_type commit
append_evidence e event_type json_bytes c =
    if c.terminal
    then threw already_terminal c
    else if not (is_evidence_type event_type) || ltb 65536 json_bytes
    then threw evidence_invalid c
    else commit e c (append_events (evidence event_type ∷ []) c.rows) (λ d. d)
