-- ===== src/Audit/Lifecycle/Invariant.antt =====
-- The invariant of an audit call, and what it says of every reachable one.
use agent_permission_guard.Base.{
  if◌then◌else◌, Text, ℕ, ◌+◌, ◌≤◌, ◌<◌, ◌≡◌, Bool, true, false, ◌&&◌, Option, none, some, List, [],
  ◌∷◌, arith,
}
use agent_permission_guard.Audit.Records.{
  Boundary, Action, ApprovalOutcome, approved, BlockedStatus, blocked_denied, AuthorizationStatus,
  authorized, AuthorizationReceipt, TerminalStatus, AuditCall, Env, after,
}
use agent_permission_guard.Audit.Call.{
  is_approved, is_some, is_ask, begin, mark_authorized, mark_execution_started, mark_forwarding,
  mark_approval_requested, mark_approval_resolved, mark_blocked,
}
use agent_permission_guard.Audit.Finish.{
  mark_completed, mark_execution_result, finalize_graph_genesis_outcome, mark_failed,
  append_evidence,
}
use agent_permission_guard.Audit.Lifecycle.{
  Method, authorize, start_execution, dispatch, request_approval, resolve_approval, block, complete,
  execution_result, finalize_graph, fail_call, add_evidence, invoke, run, starts, outcomes, blocks,
  was_approved,
}

abbrev is_granted : AuthorizationStatus → Bool
is_granted authorized = true
is_granted _ = false

-- The call holds a receipt that authorizes it.
abbrev pub is_authorized : Option AuthorizationReceipt → Bool
is_authorized none = false
is_authorized (some r) = is_granted r.status

pub record Inv (asked : Bool) (c : AuditCall) : Type 0 where
  pub one_start : starts c.rows.events ≡ (if c.dispatched then 1 else 0)
  pub one_outcome : outcomes c.rows.events ≡ (if c.dispatched && c.terminal then 1 else 0)
  pub no_block : c.terminal ≡ false → blocks c.rows.events ≡ 0
  pub one_end : blocks c.rows.events + starts c.rows.events ≤ 1
  pub clock : is_some c.execution_started_at ≡ c.dispatched
  pub authorized_start : c.dispatched ≡ true → is_authorized c.authorization ≡ true
  pub live_receipt :
      c.terminal ≡ false → is_some c.authorization ≡ true → is_authorized c.authorization ≡ true
  pub still_asked : asked ≡ true → c.approval.required ≡ true
  pub human : is_approved c.approval.outcome ≡ true → was_approved c.rows.events ≡ true
  pub approved_receipt :
      asked ≡ true → is_authorized c.authorization ≡ true → was_approved c.rows.events ≡ true

pub begin-Inv : (b : Boundary) (a : Action) (now : ℕ) → Inv (is_ask a) (begin b a now)
unfolding begin starts outcomes blocks is_approved
begin-Inv b a now = ground arith

module _ (e : Env) (asked : Bool) (c : AuditCall) (v : Inv asked c) where
  pub authorized-Inv : Inv asked (after (mark_authorized e c))
  unfolding mark_authorized starts outcomes blocks was_approved
  authorized-Inv = ground arith

  pub execution_started-Inv : Inv asked (after (mark_execution_started e c))
  unfolding mark_execution_started starts outcomes blocks was_approved
  execution_started-Inv = ground arith

  pub forwarding-Inv : Inv asked (after (mark_forwarding e c))
  unfolding mark_forwarding starts outcomes blocks was_approved
  forwarding-Inv = ground arith

  pub requested-Inv :
      (id : Text) (expires_at : ℕ) → Inv asked (after (mark_approval_requested e id expires_at c))
  unfolding mark_approval_requested is_approved starts outcomes blocks was_approved
  requested-Inv id expires_at = ground arith

  pub resolved-Inv :
      (id : Text) (outcome : ApprovalOutcome)
      → Inv asked (after (mark_approval_resolved e id outcome c))
  unfolding mark_approval_resolved is_approved starts outcomes blocks was_approved
  resolved-Inv id approved = ground arith
  resolved-Inv id _ = ground arith

  pub blocked-Inv : (s : BlockedStatus) → Inv asked (after (mark_blocked e s c))
  unfolding mark_blocked is_approved starts outcomes blocks was_approved
  blocked-Inv blocked_denied = ground arith
  blocked-Inv _ = ground arith

  pub completed-Inv : (is_error : Bool) → Inv asked (after (mark_completed e is_error c))
  unfolding mark_completed starts outcomes blocks was_approved
  completed-Inv is_error = ground arith

  pub result-Inv : (is_error : Bool) → Inv asked (after (mark_execution_result e is_error c))
  unfolding mark_execution_result starts outcomes blocks was_approved
  result-Inv is_error = ground arith

  pub finalized-Inv :
      (ok : Bool) (s : TerminalStatus) (code : Option Text)
      → Inv asked (after (finalize_graph_genesis_outcome e ok s code c))
  unfolding finalize_graph_genesis_outcome starts outcomes blocks was_approved
  finalized-Inv ok s code = ground arith

  pub failed-Inv : (code : Text) → Inv asked (after (mark_failed e code c))
  unfolding mark_failed is_approved starts outcomes blocks was_approved
  failed-Inv code = ground arith

  pub evidence-Inv :
      (event_type : Text) (n : ℕ) → Inv asked (after (append_evidence e event_type n c))
  unfolding append_evidence starts outcomes blocks was_approved
  evidence-Inv event_type n = ground arith

  pub invoke-Inv : (m : Method) → Inv asked (after (invoke e m c))
  unfolding invoke
  invoke-Inv authorize = authorized-Inv
  invoke-Inv start_execution = execution_started-Inv
  invoke-Inv dispatch = forwarding-Inv
  invoke-Inv (request_approval id expires_at) = requested-Inv id expires_at
  invoke-Inv (resolve_approval id outcome) = resolved-Inv id outcome
  invoke-Inv (block s) = blocked-Inv s
  invoke-Inv (complete is_error) = completed-Inv is_error
  invoke-Inv (execution_result is_error) = result-Inv is_error
  invoke-Inv (finalize_graph ok s code) = finalized-Inv ok s code
  invoke-Inv (fail_call code) = failed-Inv code
  invoke-Inv (add_evidence event_type n) = evidence-Inv event_type n

pub run-Inv :
    (asked : Bool) (ms : List (Env × Method)) (c : AuditCall) → Inv asked c → Inv asked (run ms c)
unfolding run
run-Inv asked [] c v = v
run-Inv asked ((e, m) ∷ ms) c v = run-Inv asked ms _ (invoke-Inv e asked c v m)

was_dispatched :
    {asked : Bool} (c : AuditCall) → Inv asked c → 0 < starts c.rows.events → c.dispatched ≡ true
was_dispatched c v h = ground (arith, v.one_start)

-- Whatever the methods that are called on a call, in whatever order, and whichever transactions
-- fail: the log records at most one start, never a start and a block, and an outcome only behind a
-- start.
pub run-begin_safe :
    (b : Boundary) (a : Action) (now : ℕ) (ms : List (Env × Method))
    → let events = (run ms (begin b a now)).rows.events in
      (blocks events + starts events ≤ 1) × (outcomes events ≤ starts events)
unfolding run
run-begin_safe b a now ms =
    let v = run-Inv (is_ask a) ms (begin b a now) (begin-Inv b a now) in ground arith

-- If the log of a call that asks records a start, whatever the methods called and whichever
-- transactions failed, it records that a human approved the call.
pub run-begin_approved :
    (b : Boundary) (a : Action) (now : ℕ) (ms : List (Env × Method))
    → is_ask a ≡ true
    → 0 < starts (run ms (begin b a now)).rows.events
    → was_approved (run ms (begin b a now)).rows.events ≡ true
unfolding run
run-begin_approved b a now ms asked h =
    let v = run-Inv (is_ask a) ms (begin b a now) (begin-Inv b a now) in
    v.approved_receipt asked (v.authorized_start (was_dispatched _ v h))
