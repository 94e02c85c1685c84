-- ===== src/Audit/Lifecycle/Frozen.antt =====
-- What the methods of an audit call leave alone.
use agent_permission_guard.Base.{keep, Text, ℕ, ◌≡◌, refl, Bool, true, false, List, [], ◌∷◌, arith}
use agent_permission_guard.Audit.Records.{
  ApprovalOutcome, ApprovalRow, AuditCall, not_pending, threw, Env, after, returned,
}
use agent_permission_guard.Audit.Call.{
  mark_authorized, mark_execution_started, mark_forwarding, mark_approval_requested, is_pending_row,
  resolve_rows, mark_approval_resolved, mark_blocked,
}
use agent_permission_guard.Audit.Finish.{
  mark_completed, mark_execution_result, finalize_graph_genesis_outcome, mark_failed,
  append_evidence,
}
use agent_permission_guard.Audit.Lifecycle.{
  Method, authorize, start_execution, dispatch, request_approval, resolve_approval, block, complete,
  execution_result, finalize_graph, fail_call, add_evidence, invoke,
}

-- Whether a method is `markFailed`.
abbrev pub is_fail_call : Method → Bool
is_fail_call (fail_call code) = true
is_fail_call _ = false

-- Once a call is terminal no method changes its rows or its state, `markFailed` returns, and every
-- other method throws.
pub invoke_terminal :
    (e : Env) (m : Method) (c : AuditCall)
    → c.terminal ≡ true
    → (after (invoke e m c) ≡ c) × (returned (invoke e m c) ≡ is_fail_call m)
unfolding invoke mark_authorized mark_execution_started mark_forwarding mark_approval_requested
    mark_approval_resolved mark_blocked mark_completed mark_execution_result
    finalize_graph_genesis_outcome mark_failed append_evidence
invoke_terminal e authorize c h = (ground arith, ground arith)
invoke_terminal e start_execution c h = (ground arith, ground arith)
invoke_terminal e dispatch c h = (ground arith, ground arith)
invoke_terminal e (request_approval id expires_at) c h = (ground arith, ground arith)
invoke_terminal e (resolve_approval id outcome) c h = (ground arith, ground arith)
invoke_terminal e (block s) c h = (ground arith, ground arith)
invoke_terminal e (complete is_error) c h = (ground arith, ground arith)
invoke_terminal e (execution_result is_error) c h = (ground arith, ground arith)
invoke_terminal e (finalize_graph ok s code) c h = (ground arith, ground arith)
invoke_terminal e (fail_call code) c h = (ground arith, ground arith)
invoke_terminal e (add_evidence event_type n) c h = (ground arith, ground arith)

-- A method whose transaction fails writes nothing, and a call that was not dispatched stays so.
invoke_uncommitted :
    (e : Env) (m : Method) (c : AuditCall)
    → e.commits ≡ false
    → ((after (invoke e m c)).rows ≡ c.rows)
      × ((after (invoke e m c)).dispatched ≡ c.dispatched)
      × ((after (invoke e m c)).terminal ≡ c.terminal)
unfolding invoke mark_authorized mark_execution_started mark_forwarding mark_approval_requested
    mark_approval_resolved mark_blocked mark_completed mark_execution_result
    finalize_graph_genesis_outcome mark_failed append_evidence
invoke_uncommitted e authorize c h = ground arith
invoke_uncommitted e start_execution c h = ground arith
invoke_uncommitted e dispatch c h = ground arith
invoke_uncommitted e (request_approval id expires_at) c h = ground arith
invoke_uncommitted e (resolve_approval id outcome) c h = ground arith
invoke_uncommitted e (block s) c h = ground arith
invoke_uncommitted e (complete is_error) c h = ground arith
invoke_uncommitted e (execution_result is_error) c h = ground arith
invoke_uncommitted e (finalize_graph ok s code) c h = ground arith
invoke_uncommitted e (fail_call code) c h = ground arith
invoke_uncommitted e (add_evidence event_type n) c h = ground arith

-- No row is written twice under one approval: an approval that is no longer pending cannot be
-- resolved again.
resolved_row :
    (id : Text) (outcome : ApprovalOutcome) (now : ℕ) (rows : List ApprovalRow)
    → keep (is_pending_row id) (resolve_rows id outcome now rows) ≡ []
unfolding resolve_rows is_pending_row
resolved_row id outcome now [] = refl
resolved_row id outcome now (row ∷ rows) = ground (arith, resolved_row id outcome now rows)

-- An approval is resolved once: behind a resolution that returned, every further one of the same
-- approval throws and writes nothing.
resolve_twice :
    (e f : Env) (id : Text) (first second : ApprovalOutcome) (c : AuditCall)
    → returned (mark_approval_resolved e id first c) ≡ true
    → let d = after (mark_approval_resolved e id first c) in
      mark_approval_resolved f id second d ≡ threw not_pending d
unfolding mark_approval_resolved
resolve_twice e f id first second c h = ground (arith, resolved_row id first e.now c.rows.approvals)
