-- ===== src/Gateway.antt =====
-- gateway/gateway.ts: the handler of `tools/call`, with the decision of policy/policy-interceptor.ts
-- and the audit call of audit/recorder.ts. What comes from outside (the approval, the abort signal,
-- the upstream server, the database) is in `Inputs`, one field for each time the handler looks.
pub mod Safety
pub mod Guarded
use agent_permission_guard.Base.{
  if◌then◌else◌, Text, codes, ℕ, Ordering, Bool, true, false, ◌&&◌, not, Option, none, some,
}
use agent_permission_guard.Policy.Schema.{PolicyDocument, Decision}
use agent_permission_guard.Policy.Evaluator.{PolicyEvaluationInput, evaluate_policy}
use agent_permission_guard.Audit.Records.{
  mcp_proxy_call, Action, forward, ask, deny, ApprovalOutcome, approved, denied, expired, cancelled,
  resolved, BlockedStatus, blocked_denied, blocked_unavailable, blocked_approval_denied,
  blocked_approval_expired, blocked_approval_cancelled, AuditCall, Step, done, threw, Env, after,
}
use agent_permission_guard.Audit.Call.{
  is_approved, begin, mark_forwarding, mark_approval_requested, mark_approval_resolved,
  mark_blocked,
}
use agent_permission_guard.Audit.Finish.{mark_completed, mark_failed}

-- `evaluation.effectiveDecision` as the interceptor's `action`.
abbrev pub action_of : Decision → Action
action_of Decision.allow = forward
action_of Decision.ask = ask
action_of Decision.deny = deny

-- `PolicyInterceptor.evaluate`; `LivePolicyController.evaluate` is the same on its current policy.
unfoldable pub intercept :
    (Text → Text → Ordering) → PolicyDocument → PolicyEvaluationInput → Action
intercept locale_compare policy input =
    action_of (evaluate_policy locale_compare policy input).effective_decision

pub record Inputs : Type 0 where
  -- `isExactRequired(…)`, and whether the identity that was prepared is exact.
  pub exact_required : Bool
  pub is_exact : Bool
  pub action : Action
  -- An approval coordinator is configured; the ticket that it gives, unless it throws.
  pub approval_configured : Bool
  pub ticket : Option (Text × ℕ)
  -- How the ticket's promise is resolved, and whether the call is aborted by then.
  pub approval_outcome : ApprovalOutcome
  pub aborted : Bool
  -- The result of the upstream call, `some true` for one with `isError`; `none` if it throws.
  pub upstream : Option Bool
  pub aborted_upstream : Bool
  -- `projectCallToolResult` accepts the upstream result.
  pub projects : Bool
  -- The database and the clock at each step of the audit.
  pub at_begin : Env
  pub at_request : Env
  pub at_resolution : Env
  pub at_block : Env
  pub at_forwarding : Env
  pub at_end : Env
  pub at_failure : Env

pub data Response : Type 0 where
  exact_identity_required_result denied_result approval_unavailable_result : Response
  approval_result : ApprovalOutcome → Response
  upstream_result : Bool → Response
  error_thrown : Response

pub record Handled : Type 0 where
  pub audit : Option AuditCall
  pub upstream_calls : ℕ
  pub ticket_cancelled : Bool
  pub response : Response

abbrev pub handled : AuditCall → ℕ → Response → Handled
handled c n response = record {
  audit = some c;
  upstream_calls = n;
  ticket_cancelled = false;
  response = response;
}

-- A method that throws ends the handler with its exception.
abbrev pub or_throw : Step → ℕ → (AuditCall → Handled) → Handled
or_throw (done c) n next = next c
or_throw (threw e c) n next = handled c n error_thrown

-- A method whose exception is swallowed.
abbrev pub in_any_case : Step → (AuditCall → Handled) → Handled
in_any_case s next = next (after s)

unfoldable pub blocked_status : ApprovalOutcome → BlockedStatus
blocked_status approved = blocked_denied
blocked_status denied = blocked_approval_denied
blocked_status expired = blocked_approval_expired
blocked_status cancelled = blocked_approval_cancelled

unfoldable pub is_cancelled : ApprovalOutcome → Bool
is_cancelled cancelled = true
is_cancelled _ = false

-- The handler of an exception behind the upstream call.
unfoldable pub completion_failed : Inputs → AuditCall → Handled
completion_failed i d =
    in_any_case (mark_failed i.at_failure (codes "audit_completion_failed") d)
      (λ f. handled f 1 error_thrown)

unfoldable pub after_completion : Inputs → Bool → Step → Handled
unfolding completion_failed
after_completion i is_error (done d) =
    if i.projects then handled d 1 (upstream_result is_error) else completion_failed i d
after_completion i is_error (threw e d) = completion_failed i d

abbrev pub failure_code : Inputs → Text
failure_code i = if i.aborted_upstream then codes "cancelled" else codes "upstream_error"

-- The upstream call and its record, behind `markForwarding`.
unfoldable pub call_upstream : Inputs → Option Bool → AuditCall → Handled
unfolding after_completion
call_upstream i none c =
    or_throw (mark_failed i.at_end (failure_code i) c) 1 (λ d. handled d 1 error_thrown)
call_upstream i (some is_error) c = after_completion i is_error (mark_completed i.at_end is_error c)

unfoldable pub forward_call : Inputs → AuditCall → Handled
unfolding call_upstream
forward_call i c = or_throw (mark_forwarding i.at_forwarding c) 0 (call_upstream i i.upstream)

-- Behind `markApprovalResolved`.
unfoldable pub after_approval : Inputs → AuditCall → Handled
unfolding forward_call blocked_status is_cancelled is_approved
after_approval i c =
    if is_approved (resolved i.approval_outcome)
    then (if i.aborted
        then or_throw (mark_failed i.at_block (codes "cancelled_before_execution") c) 0
            (λ d. handled d 0 error_thrown)
        else forward_call i c)
    else or_throw (mark_blocked i.at_block (blocked_status i.approval_outcome) c) 0 (λ d.
      handled d 0 (
        if is_cancelled i.approval_outcome
        then error_thrown
        else approval_result i.approval_outcome))

abbrev pub cancel_ticket : Handled → Handled
cancel_ticket h = record h { ticket_cancelled = true }

unfoldable pub after_request : Inputs → Text → Step → Handled
unfolding after_approval
after_request i id (threw e d) = cancel_ticket (handled d 0 error_thrown)
after_request i id (done d) =
    or_throw (mark_approval_resolved i.at_resolution id i.approval_outcome d) 0 (after_approval i)

unfoldable pub with_ticket : Inputs → Option (Text × ℕ) → AuditCall → Handled
unfolding after_request
with_ticket i none c = handled c 0 error_thrown
with_ticket i (some (id, expires_at)) c =
    after_request i id (mark_approval_requested i.at_request id expires_at c)

unfoldable pub ask_human : Inputs → AuditCall → Handled
unfolding with_ticket
ask_human i c =
    if not i.approval_configured
    then or_throw (mark_blocked i.at_block blocked_unavailable c) 0
        (λ d. handled d 0 approval_unavailable_result)
    else with_ticket i i.ticket c

unfoldable pub block_denied : Inputs → Response → AuditCall → Handled
block_denied i response c =
    or_throw (mark_blocked i.at_block blocked_denied c) 0 (λ d. handled d 0 response)

unfoldable pub act : Inputs → Action → AuditCall → Handled
unfolding ask_human forward_call block_denied
act i forward c = forward_call i c
act i ask c = ask_human i c
act i deny c = block_denied i denied_result c

-- `audit.begin`, which throws if its transaction fails.
abbrev pub with_audit : Inputs → Action → (AuditCall → Handled) → Handled
with_audit i action next =
    if i.at_begin.commits then next (begin mcp_proxy_call action i.at_begin.now) else record {
      audit = none;
      upstream_calls = 0;
      ticket_cancelled = false;
      response = error_thrown;
    }

unfoldable pub handle_call : Inputs → Handled
unfolding act block_denied
handle_call i =
    if i.exact_required && not i.is_exact
    then with_audit i deny (block_denied i exact_identity_required_result)
    else with_audit i i.action (act i i.action)
