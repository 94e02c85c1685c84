-- ===== src/Gateway/Safety.antt =====
-- What must have happened before the gateway of gateway/gateway.ts calls the upstream tool.
use agent_permission_guard.Base.{
  Bool-cases, Text, codes, ℕ, ◌≤◌, ◌<◌, ◌≡◌, refl, ◌∙◌, inl, inr, Bool, true, Option, none, some,
  arith,
}
use agent_permission_guard.Audit.Records.{
  Action, forward, ask, deny, resolved, BlockedStatus, blocked_denied, blocked_unavailable,
  AuditCall, Step, done, threw, Env, after, returned,
}
use agent_permission_guard.Audit.Call.{
  is_approved, mark_forwarding, mark_approval_resolved, mark_blocked,
}
use agent_permission_guard.Audit.Finish.{mark_completed, mark_failed}
use agent_permission_guard.Audit.Lifecycle.Invariant.{
  Inv, forwarding-Inv, requested-Inv, resolved-Inv, completed-Inv, failed-Inv,
}
use agent_permission_guard.Gateway.{
  Inputs, Response, denied_result, approval_unavailable_result, upstream_result, error_thrown,
  Handled, handled, or_throw, completion_failed, after_completion, failure_code, call_upstream,
  forward_call, after_approval, after_request, with_ticket, ask_human, block_denied, act,
}

-- At most one upstream call, and only of a call whose start is in the audit trail.
abbrev pub Tracked : Bool → Handled → Type 0
Tracked asked h =
    (h.upstream_calls ≤ 1)
    × (0 < h.upstream_calls
        → (c : AuditCall) × (h.audit ≡ some c) × Inv asked c × (c.dispatched ≡ true))

failed-dispatched :
    (e : Env) (code : Text) (c : AuditCall)
    → (after (mark_failed e code c)).dispatched ≡ c.dispatched
unfolding mark_failed
failed-dispatched e code c = ground arith

completed-dispatched :
    (e : Env) (is_error : Bool) (c : AuditCall)
    → (after (mark_completed e is_error c)).dispatched ≡ c.dispatched
unfolding mark_completed
completed-dispatched e is_error c = ground arith

forwarding-dispatched :
    (e : Env) (c : AuditCall)
    → returned (mark_forwarding e c) ≡ true
    → (after (mark_forwarding e c)).dispatched ≡ true
unfolding mark_forwarding
forwarding-dispatched e c h = ground arith

module _ (i : Inputs) (asked : Bool) where
  -- A handler that has called the tool once, and holds this audit call.
  called_once :
      (c : AuditCall) (r : Response)
      → Inv asked c
      → c.dispatched ≡ true
      → Tracked asked (handled c 1 r)
  called_once c r v d = (omega arith, λ _. (c, refl, v, d))

  not_called : (c : AuditCall) (r : Response) → Tracked asked (handled c 0 r)
  not_called c r = (omega arith, λ h. absurd (omega arith))

  completion_failed-Tracked :
      (c : AuditCall) → Inv asked c → c.dispatched ≡ true → Tracked asked (completion_failed i c)
  unfolding completion_failed
  completion_failed-Tracked c v d =
      called_once _ error_thrown (failed-Inv i.at_failure asked c v _)
        (failed-dispatched i.at_failure _ c ∙ d)

  or_throw-Tracked :
      (s : Step) (n : ℕ) (next : AuditCall → Handled)
      → Tracked asked (handled (after s) n error_thrown)
      → (returned s ≡ true → Tracked asked (next (after s)))
      → Tracked asked (or_throw s n next)
  or_throw-Tracked (done c) n next h k = k refl
  or_throw-Tracked (threw e c) n next h k = h

  completion-Tracked :
      (is_error : Bool) (s : Step)
      → Inv asked (after s)
      → (after s).dispatched ≡ true
      → Tracked asked (after_completion i is_error s)
  unfolding after_completion
  completion-Tracked is_error (threw e c) v d = completion_failed-Tracked c v d
  completion-Tracked is_error (done c) v d = elim (Bool-cases i.projects) [
    | inl e ↦ rw (e, after_completion) (called_once c (upstream_result is_error) v d)
    | inr e ↦ rw (e, after_completion) (completion_failed-Tracked c v d)
  ]

  call_upstream-Tracked :
      (u : Option Bool) (c : AuditCall)
      → Inv asked c
      → c.dispatched ≡ true
      → Tracked asked (call_upstream i u c)
  unfolding call_upstream
  call_upstream-Tracked none c v d =
      let failed_call =
        called_once _ error_thrown (failed-Inv i.at_end asked c v (failure_code i))
          (failed-dispatched i.at_end (failure_code i) c ∙ d) in
      or_throw-Tracked (mark_failed i.at_end (failure_code i) c) 1 _ failed_call (λ _. failed_call)
  call_upstream-Tracked (some is_error) c v d =
      completion-Tracked is_error (mark_completed i.at_end is_error c)
        (completed-Inv i.at_end asked c v is_error) (completed-dispatched i.at_end is_error c ∙ d)

  forward_call-Tracked : (c : AuditCall) → Inv asked c → Tracked asked (forward_call i c)
  unfolding forward_call
  forward_call-Tracked c v =
      or_throw-Tracked (mark_forwarding i.at_forwarding c) 0 _ (not_called _ error_thrown) (λ r.
        call_upstream-Tracked i.upstream _ (forwarding-Inv i.at_forwarding asked c v)
          (forwarding-dispatched i.at_forwarding c r))

  pub block-Tracked :
      (s : BlockedStatus) (r : Response) (c : AuditCall)
      → Tracked asked (or_throw (mark_blocked i.at_block s c) 0 (λ d. handled d 0 r))
  block-Tracked s r c =
      or_throw-Tracked (mark_blocked i.at_block s c) 0 _ (not_called _ error_thrown)
        (λ _. not_called _ r)

  after_approval-Tracked : (c : AuditCall) → Inv asked c → Tracked asked (after_approval i c)
  unfolding after_approval
  after_approval-Tracked c v = elim (Bool-cases (is_approved (resolved i.approval_outcome))) [
    | inr e ↦ rw (e, after_approval) (block-Tracked _ _ c)
    | inl e ↦ elim (Bool-cases i.aborted) [
      | inl f ↦
          rw (e, f, after_approval)
            (or_throw-Tracked (mark_failed i.at_block (codes "cancelled_before_execution") c) 0 _
              (not_called _ error_thrown) (λ _. not_called _ error_thrown))
      | inr f ↦ rw (e, f, after_approval) (forward_call-Tracked c v)
    ]
  ]

  after_request-Tracked :
      (id : Text) (s : Step) → Inv asked (after s) → Tracked asked (after_request i id s)
  unfolding after_request
  after_request-Tracked id (threw e c) v = (omega arith, λ h. absurd (omega arith))
  after_request-Tracked id (done c) v =
      or_throw-Tracked (mark_approval_resolved i.at_resolution id i.approval_outcome c) 0 _
        (not_called _ error_thrown)
        (λ _.
          after_approval-Tracked _ (resolved-Inv i.at_resolution asked c v id i.approval_outcome))

  with_ticket-Tracked :
      (t : Option (Text × ℕ)) (c : AuditCall) → Inv asked c → Tracked asked (with_ticket i t c)
  unfolding with_ticket
  with_ticket-Tracked none c v = not_called c error_thrown
  with_ticket-Tracked (some (id, expires_at)) c v =
      after_request-Tracked id _ (requested-Inv i.at_request asked c v id expires_at)

  ask_human-Tracked : (c : AuditCall) → Inv asked c → Tracked asked (ask_human i c)
  unfolding ask_human
  ask_human-Tracked c v = elim (Bool-cases i.approval_configured) [
    | inl e ↦ rw (e, ask_human) (with_ticket-Tracked i.ticket c v)
    | inr e ↦ rw (e, ask_human) (block-Tracked blocked_unavailable approval_unavailable_result c)
  ]

  pub act-Tracked : (a : Action) (c : AuditCall) → Inv asked c → Tracked asked (act i a c)
  unfolding act block_denied
  act-Tracked forward c v = forward_call-Tracked c v
  act-Tracked ask c v = ask_human-Tracked c v
  act-Tracked deny c v = block-Tracked blocked_denied denied_result c
