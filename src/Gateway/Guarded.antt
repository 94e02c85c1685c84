-- ===== src/Gateway/Guarded.antt =====
-- When the gateway of gateway/gateway.ts calls the upstream tool.
use agent_permission_guard.Gateway.Safety.{Tracked, act-Tracked}
use agent_permission_guard.Gateway.{
  Inputs, Response, exact_identity_required_result, Handled, handled, or_throw, after_approval,
  after_request, with_ticket, ask_human, block_denied, act, with_audit, handle_call,
}
use agent_permission_guard.Audit.Lifecycle.Invariant.{Inv, begin-Inv}
use agent_permission_guard.Audit.Call.{
  is_approved, is_ask, begin, mark_approval_resolved, mark_blocked,
}
use agent_permission_guard.Audit.Records.{
  mcp_proxy_call, Action, forward, ask, deny, ApprovalOutcome, approved, denied, expired, cancelled,
  resolved, blocked_denied, AuditCall, Step, done, threw, after,
}
use agent_permission_guard.Base.{
  if◌then◌else◌, Bool-cases, Text, ℕ, ◌≤◌, ◌<◌, ◌≡◌, refl, sym, ◌∙◌, ◌≢◌, ◌⊎◌, inl, inr, Bool, true,
  false, ◌&&◌, ◌||◌, not, false≢true, Option, none, some, arith,
}
use agent_permission_guard.Audit.Lifecycle.{starts, was_approved}

-- A step that throws has not led to the upstream call.
or_throw-calls :
    (s : Step) (next : AuditCall → Handled)
    → 0 < (or_throw s 0 next).upstream_calls
    → 0 < (next (after s)).upstream_calls
or_throw-calls (done c) next h = h
or_throw-calls (threw e c) next h = absurd (omega arith)

module _ (i : Inputs) where
  -- A human approved the call, and it was not aborted by then.
  abbrev pub HumanAgreed : Type 0
  HumanAgreed = (i.approval_outcome ≡ approved) × (i.aborted ≡ false)

  approved_only : (o : ApprovalOutcome) → is_approved (resolved o) ≡ true → o ≡ approved
  unfolding is_approved
  approved_only approved h = refl
  approved_only denied h = absurd (false≢true h)
  approved_only expired h = absurd (false≢true h)
  approved_only cancelled h = absurd (false≢true h)

  block-calls :
      (s : Step) (r : Response) → ¬ (0 < (or_throw s 0 (λ d. handled d 0 r)).upstream_calls)
  block-calls (done c) r h = absurd (omega arith)
  block-calls (threw e c) r h = absurd (omega arith)

  after_approval-agreed : (c : AuditCall) → 0 < (after_approval i c).upstream_calls → HumanAgreed
  unfolding after_approval
  after_approval-agreed c h = elim (Bool-cases (is_approved (resolved i.approval_outcome))) [
    | inr e ↦ absurd (block-calls _ _ (rw (e, after_approval) at h))
    | inl e ↦ elim (Bool-cases i.aborted) [
      | inl f ↦ absurd (block-calls _ _ (rw (e, f, after_approval) at h))
      | inr f ↦ (approved_only _ e, f)
    ]
  ]

  after_request-agreed :
      (id : Text) (s : Step) → 0 < (after_request i id s).upstream_calls → HumanAgreed
  unfolding after_request
  after_request-agreed id (threw e c) h = absurd (omega arith)
  after_request-agreed id (done c) h = after_approval-agreed _ (
      or_throw-calls (mark_approval_resolved i.at_resolution id i.approval_outcome c)
        (after_approval i) h)

  with_ticket-agreed :
      (t : Option (Text × ℕ)) (c : AuditCall) → 0 < (with_ticket i t c).upstream_calls → HumanAgreed
  unfolding with_ticket
  with_ticket-agreed none c h = absurd (omega arith)
  with_ticket-agreed (some (id, expires_at)) c h = after_request-agreed id _ h

  ask_human-agreed : (c : AuditCall) → 0 < (ask_human i c).upstream_calls → HumanAgreed
  unfolding ask_human
  ask_human-agreed c h = elim (Bool-cases i.approval_configured) [
    | inl e ↦ with_ticket-agreed i.ticket c (rw (e, ask_human) at h)
    | inr e ↦ absurd (block-calls _ _ (rw (e, ask_human) at h))
  ]

  act-agreed : (c : AuditCall) → 0 < (act i ask c).upstream_calls → HumanAgreed
  unfolding act
  act-agreed c h = ask_human-agreed c h

  act-denied : (c : AuditCall) → ¬ (0 < (act i deny c).upstream_calls)
  unfolding act block_denied
  act-denied c h = block-calls _ _ h

-- What holds of a call that reached the upstream tool.
pub record Permitted (i : Inputs) (h : Handled) : Type 0 where
  pub exact : i.exact_required ≡ true → i.is_exact ≡ true
  pub not_denied : i.action ≢ deny
  pub agreed : i.action ≡ ask → HumanAgreed i
  pub recorded :
      (c : AuditCall) × (h.audit ≡ some c)
      × (starts c.rows.events ≡ 1)
      × (i.action ≡ ask → was_approved c.rows.events ≡ true)

abbrev refused : (i : Inputs) → Bool
refused i = i.exact_required && not i.is_exact

module _ (i : Inputs) (h : refused i ≡ false) where
  allowed_identity : i.exact_required ≡ true → i.is_exact ≡ true
  allowed_identity r = elim (Bool-cases i.is_exact) [
    | inl e ↦ e
    | inr e ↦ absurd (false≢true (sym h ∙ rw (r, e)))
  ]

  -- What the invariant says of the audit call of a call that was made.
  recorded_call :
      (asked : Bool) (g : Handled)
      → (i.action ≡ ask → asked ≡ true)
      → Tracked asked g
      → 0 < g.upstream_calls
      → (c : AuditCall) × (g.audit ≡ some c)
        × (starts c.rows.events ≡ 1)
        × (i.action ≡ ask → was_approved c.rows.events ≡ true)
  recorded_call asked g same t k =
      let (c, found, v, d) = t.1 k in
      (
        c,
        found,
        ground (arith, v.one_start, d),
        λ q. v.approved_receipt (same q) (v.authorized_start d),
      )

  act-Permitted :
      (a : Action) (c : AuditCall)
      → Inv (is_ask a) c
      → i.action ≡ a
      → 0 < (act i a c).upstream_calls
      → Permitted i (act i a c)
  act-Permitted forward c v e k = record {
    exact = allowed_identity;
    not_denied = λ q. cc;
    agreed = λ q. absurd (cc);
    recorded =
        recorded_call false (act i forward c) (λ q. absurd (cc)) (act-Tracked i false forward c v)
          k;
  }
  act-Permitted ask c v e k = record {
    exact = allowed_identity;
    not_denied = λ q. cc;
    agreed = λ _. act-agreed i c k;
    recorded = recorded_call true (act i ask c) (λ q. refl) (act-Tracked i true ask c v) k;
  }
  act-Permitted deny c v e k = absurd (act-denied i c k)

-- The handler makes at most one upstream call, and only a permitted one.
abbrev pub Guarded : Inputs → Handled → Type 0
Guarded i h = (h.upstream_calls ≤ 1) × (0 < h.upstream_calls → Permitted i h)

uncalled-Guarded : (i : Inputs) (h : Handled) → h.upstream_calls ≡ 0 → Guarded i h
uncalled-Guarded i h e = (omega (arith, e), λ k. absurd (omega (arith, e, k)))

if-Guarded :
    (i : Inputs) (b : Bool) (h k : Handled)
    → (b ≡ true → Guarded i h)
    → (b ≡ false → Guarded i k)
    → Guarded i (if b then h else k)
if-Guarded i true h k f g = f refl
if-Guarded i false h k f g = g refl

with_audit-Guarded :
    (i : Inputs) (a : Action) (next : AuditCall → Handled)
    → Guarded i (next (begin mcp_proxy_call a i.at_begin.now))
    → Guarded i (with_audit i a next)
with_audit-Guarded i a next g =
    if-Guarded i i.at_begin.commits _ _ (λ _. g) (λ _. uncalled-Guarded i _ refl)

block_denied-Guarded :
    (i : Inputs) (r : Response) (s : Step) → Guarded i (or_throw s 0 (λ d. handled d 0 r))
block_denied-Guarded i r (done c) = uncalled-Guarded i _ refl
block_denied-Guarded i r (threw e c) = uncalled-Guarded i _ refl

-- The handler makes at most one upstream call.
pub handle_call-Guarded : (i : Inputs) → Guarded i (handle_call i)
unfolding handle_call block_denied
handle_call-Guarded i =
    if-Guarded i (refused i) _ _
      (λ _. with_audit-Guarded i deny (block_denied i exact_identity_required_result) (
        block_denied-Guarded i exact_identity_required_result
          (mark_blocked i.at_block blocked_denied (begin mcp_proxy_call deny i.at_begin.now))))
      (λ e.
        let v = begin-Inv mcp_proxy_call i.action i.at_begin.now in
        let c = begin mcp_proxy_call i.action i.at_begin.now in
        with_audit-Guarded i i.action (act i i.action)
          ((act-Tracked i (is_ask i.action) i.action c v).0, act-Permitted i e i.action c v refl))

-- What is known of the inputs and of the result of a call that reached the upstream tool.
pub record Justified (i : Inputs) (h : Handled) : Type 0 where
  pub exact_identity : (not i.exact_required || i.is_exact) ≡ true
  -- The decision was to forward, or to ask, and a human approved a call that was not aborted.
  pub decided : (i.action ≡ forward) ⊎ (i.action ≡ ask) × HumanAgreed i
  -- The audit trail has one start of it, and the approval if the decision was to ask.
  pub logged :
      (c : AuditCall) × (h.audit ≡ some c)
      × (starts c.rows.events ≡ 1)
      × ((i.action ≡ forward) ⊎ (was_approved c.rows.events ≡ true))

Permitted-Justified :
    (i : Inputs) (h : Handled) (a : Action) → i.action ≡ a → Permitted i h → Justified i h
Permitted-Justified i h forward e p =
    let (c, found, one, _) = p.recorded in
    record {
      exact_identity = ground (arith, p.exact);
      decided = inl e;
      logged = (c, found, one, inl e);
    }
Permitted-Justified i h ask e p =
    let (c, found, one, human) = p.recorded in
    record {
      exact_identity = ground (arith, p.exact);
      decided = inr (e, p.agreed e);
      logged = (c, found, one, inr (human e));
    }
Permitted-Justified i h deny e p = absurd (p.not_denied e)

-- If the handler of `tools/call` reaches the upstream tool, it calls it once, the identity is exact
-- where that is required, the decision was to forward or to ask, and a human approved a call that
-- asked and was not aborted; the audit trail then has one start, and the approval if it asked.
pub handle_call-Justified :
    (i : Inputs)
    → 0 < (handle_call i).upstream_calls
    → ((handle_call i).upstream_calls ≡ 1) × Justified i (handle_call i)
handle_call-Justified i h =
    let (once, permitted) = handle_call-Guarded i in
    (omega (arith, once, h), Permitted-Justified i (handle_call i) i.action refl (permitted h))
