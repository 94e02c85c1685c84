-- ===== src/Audit/Call.antt =====
-- The methods of the `AuditCall` that `SqliteAuditRecorder.begin` of audit/recorder.ts returns.
use agent_permission_guard.Base.{
  ◌==◌, if◌then◌else◌, length, keep, Text, text_eq, ℕ, ◌-◌, Bool, true, false, ◌&&◌, ◌||◌, not,
  Option, none, some, List, [], ◌∷◌,
}
use agent_permission_guard.Audit.Records.{
  Boundary, graph_genesis_plan, Action, ask, ApprovalOutcome, approved, denied, expired, cancelled,
  ApprovalState, not_required, not_requested, pending, unavailable, resolved, ReceiptApproval,
  BlockedStatus, blocked_denied, blocked_unavailable, blocked_approval_denied,
  blocked_approval_expired, blocked_approval_cancelled, AuthorizationStatus, authorized, blocked,
  ReasonCode, approval_approved, policy_allowed, blocked_by, AuthorizationReceipt, CallStatus,
  status_evaluated, status_authorized, status_forwarding, status_approval_pending, status_resolved,
  status_blocked, AuditEvent, decision_recorded, graph_genesis_authorization_ready,
  authorization_receipt_finalized, execution_start_recorded, approval_requested, approval_resolved,
  call_blocked, ApprovalRow, CallRows, AuditCall, already_terminal, already_dispatched,
  already_finalized, not_approved, not_pending, not_authorized, wrong_boundary, receipt_invalid,
  database_failed, Step, done, threw, Env,
}

unfoldable pub is_graph_genesis : Boundary → Bool
is_graph_genesis graph_genesis_plan = true
is_graph_genesis _ = false

unfoldable pub is_approved : ApprovalState → Bool
is_approved (resolved approved) = true
is_approved _ = false

-- `approval.required && approval.outcome !== 'approved'`.
unfoldable pub lacks_approval : ReceiptApproval → Bool
unfolding is_approved
lacks_approval a = a.required && not (is_approved a.outcome)

abbrev pub is_some {ℓ} : {A : Type ℓ} → Option A → Bool
is_some none = false
is_some (some _) = true

abbrev pub is_ask : Action → Bool
is_ask ask = true
is_ask _ = false

abbrev pub initial_approval : Action → ReceiptApproval
initial_approval ask = record { required = true; outcome = not_requested; request_id = none }
initial_approval _ = record { required = false; outcome = not_required; request_id = none }

-- The closure once the row and the first event are in the database.
unfoldable pub begin : Boundary → Action → ℕ → AuditCall
begin boundary action now = record {
  boundary = boundary;
  started_at = now;
  terminal = false;
  dispatched = false;
  execution_started_at = none;
  authorization = none;
  approval = initial_approval action;
  rows = record {
    status = status_evaluated;
    latency_ms = none;
    error_code = none;
    approvals = [];
    events = decision_recorded ∷ [];
  };
}

unfoldable pub build_authorization :
    AuditCall → AuthorizationStatus → ReasonCode → ℕ → AuthorizationReceipt
build_authorization c status reason now = record {
  issued_at = now;
  approval = c.approval;
  status = status;
  reason_code = reason;
}

abbrev pub set_status : CallStatus → CallRows → CallRows
set_status s rows = record rows { status = s }

-- The events of the call, each put before those that are there.
abbrev pub log_events : List AuditEvent → List AuditEvent → List AuditEvent
log_events [] events = events
log_events (new ∷ news) events = log_events news (new ∷ events)

abbrev pub append_events : List AuditEvent → CallRows → CallRows
append_events news rows = record rows { events = log_events news rows.events }

-- `finish`: subtraction on ℕ is the source's `Math.max(0, …)`.
unfoldable pub finish : CallStatus → ℕ → ℕ → Option Text → CallRows → CallRows
finish s started now code rows = record rows {
  status = s;
  latency_ms = some (now - started);
  error_code = code;
}

-- A transaction that writes `rows`, and what the method does behind it.
unfoldable pub commit : Env → AuditCall → CallRows → (AuditCall → AuditCall) → Step
commit e c rows next =
    if e.commits then done (next (record c { rows = rows })) else threw database_failed c

unfoldable pub mark_authorized : Env → AuditCall → Step
unfolding is_graph_genesis lacks_approval build_authorization commit
mark_authorized e c =
    if not (is_graph_genesis c.boundary)
    then threw wrong_boundary c
    else if c.terminal || is_some c.authorization
    then threw already_finalized c
    else if lacks_approval c.approval
    then threw not_approved c
    else if not e.accepts
    then threw receipt_invalid c
    else let receipt = build_authorization c authorized approval_approved e.now in
      commit e c
        (append_events
          (authorization_receipt_finalized receipt ∷ graph_genesis_authorization_ready ∷ [])
          (set_status status_authorized c.rows))
        (λ d. record d { authorization = some receipt })

unfoldable pub mark_execution_started : Env → AuditCall → Step
unfolding is_graph_genesis commit
mark_execution_started e c =
    if not (is_graph_genesis c.boundary) then threw wrong_boundary c else elim c.authorization [
      | none ↦ threw not_authorized c
      | some receipt ↦
          if c.terminal || c.dispatched
          then threw not_authorized c
          else commit e c
              (append_events (execution_start_recorded receipt ∷ [])
                (set_status status_forwarding c.rows))
              (λ d. record d { execution_started_at = some e.now; dispatched = true })
    ]

unfoldable pub mark_forwarding : Env → AuditCall → Step
unfolding is_graph_genesis lacks_approval is_approved build_authorization commit
mark_forwarding e c =
    if is_graph_genesis c.boundary
    then threw wrong_boundary c
    else if c.terminal
    then threw already_terminal c
    else if c.dispatched
    then threw already_dispatched c
    else if lacks_approval c.approval
    then threw not_approved c
    else if not e.accepts
    then threw receipt_invalid c
    else let reason =
        if is_approved c.approval.outcome then approval_approved else policy_allowed in
      let receipt = build_authorization c authorized reason e.now in
      commit e c
        (append_events
          (authorization_receipt_finalized receipt ∷ execution_start_recorded receipt ∷ [])
          (set_status status_forwarding c.rows))
        (λ d. record d {
          authorization = some receipt;
          execution_started_at = some e.now;
          dispatched = true;
        })

abbrev pub with_approval : ReceiptApproval → AuditCall → AuditCall
with_approval a c = record c { approval = a }

abbrev pub is_empty {ℓ} : {A : Type ℓ} → List A → Bool
is_empty [] = true
is_empty (_ ∷ _) = false

abbrev pub new_row : Text → ℕ → ApprovalRow
new_row id expires_at = record {
  id = id;
  status = none;
  expires_at = expires_at;
  decided_at = none;
}

-- `INSERT INTO approvals`: the index of migrations/002_approvals.sql on the call makes a second row of one call
-- an error.
unfoldable pub mark_approval_requested : Env → Text → ℕ → AuditCall → Step
unfolding commit
mark_approval_requested e id expires_at c =
    if c.terminal
    then threw already_terminal c
    else if not (is_empty c.rows.approvals)
    then threw database_failed c
    else commit e c
        (append_events (approval_requested id expires_at ∷ []) (
          set_status status_approval_pending
            (record c.rows { approvals = new_row id expires_at ∷ [] })))
        (with_approval (record { required = true; outcome = pending; request_id = some id }))

-- `UPDATE approvals … WHERE id = ? AND status = 'pending'`.
unfoldable pub is_pending_row : Text → ApprovalRow → Bool
is_pending_row id row = text_eq row.id id && not (is_some row.status)

unfoldable pub resolve_rows : Text → ApprovalOutcome → ℕ → List ApprovalRow → List ApprovalRow
unfolding is_pending_row
resolve_rows id outcome now [] = []
resolve_rows id outcome now (row ∷ rows) =
    (if is_pending_row id row
      then record row { status = some outcome; decided_at = some now }
      else row)
    ∷ resolve_rows id outcome now rows

unfoldable pub mark_approval_resolved : Env → Text → ApprovalOutcome → AuditCall → Step
unfolding commit resolve_rows
mark_approval_resolved e id outcome c =
    if c.terminal
    then threw already_terminal c
    else if not (length (keep (is_pending_row id) c.rows.approvals) == 1)
    then threw not_pending c
    else commit e c
        (append_events (approval_resolved outcome id ∷ []) (
          set_status (status_resolved outcome)
            (record c.rows { approvals = resolve_rows id outcome e.now c.rows.approvals })))
        (with_approval
          (record { required = true; outcome = resolved outcome; request_id = some id }))

unfoldable pub blocked_approval : ReceiptApproval → BlockedStatus → ReceiptApproval
blocked_approval a blocked_denied = a
blocked_approval a blocked_unavailable = record a { required = true; outcome = unavailable }
blocked_approval a blocked_approval_denied = record a { required = true; outcome = resolved denied }
blocked_approval a blocked_approval_expired = record a {
  required = true;
  outcome = resolved expired;
}
blocked_approval a blocked_approval_cancelled = record a {
  required = true;
  outcome = resolved cancelled;
}

-- The assignment to `approval` stands before what may throw.
unfoldable pub mark_blocked : Env → BlockedStatus → AuditCall → Step
unfolding blocked_approval build_authorization finish commit
mark_blocked e status c =
    if c.terminal
    then threw already_terminal c
    else if c.dispatched
    then threw already_dispatched c
    else let d = record c { approval = blocked_approval c.approval status } in
      if not e.accepts
      then threw receipt_invalid d
      else let receipt = build_authorization d blocked (blocked_by status) e.now in
        commit e d
          (append_events (call_blocked status ∷ authorization_receipt_finalized receipt ∷ [])
            (finish (status_blocked status) c.started_at e.now none c.rows))
          (λ f. record f { authorization = some receipt; terminal = true })
