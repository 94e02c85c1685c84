-- ===== src/Tests/Audits.antt =====
-- The audit trail, the redaction, the approvals and the live phases on concrete inputs.
use agent_permission_guard.Base.{
  ◌==◌, if◌then◌else◌, Bool-cases, take, drop, All, In, Text, codes, text_eq, ℕ, ◌+◌, ◌≤◌, ◌≡◌,
  refl, sym, ◌∙◌, ◌⊎◌, inl, inr, true, false, false≢true, List, [], ◌∷◌, arith,
}
use agent_permission_guard.Json.{Value, text, object, end, entry}
use agent_permission_guard.Audit.Redaction.{is_secret_key, redact_for_audit}
use agent_permission_guard.Audit.Redaction.Secrets.{
  same_object, secret_entry, same_end, redact_for_audit-SameButSecrets,
}
use agent_permission_guard.Audit.Records.{
  Env, ask, mcp_proxy_call, approved, cancelled, AuditCall, after, returned,
}
use agent_permission_guard.Audit.Call.{
  begin, mark_approval_resolved, mark_approval_requested, mark_forwarding, resolve_rows,
}
use agent_permission_guard.Audit.Finish.{mark_completed}
use agent_permission_guard.Audit.Lifecycle.{
  Method, request_approval, resolve_approval, dispatch, complete, invoke, run, starts, outcomes,
  blocks, was_approved,
}
use agent_permission_guard.Audit.Lifecycle.Invariant.{run-begin_safe, run-begin_approved}
use agent_permission_guard.Audit.Lifecycle.Frozen.{invoke_terminal}
use agent_permission_guard.Audit.Chain.{EventRow, append_event, verify_hash_chain}
use agent_permission_guard.Audit.Chain.Tampering.{
  Collision, HasNoNewline, verify-append_event, verify_hash_chain_unique,
}
use agent_permission_guard.Approval
use agent_permission_guard.Approval.{
  PendingEntry, Service, empty_service, service_closed, err, requests, decides, fires, close,
  request, step,
}
use agent_permission_guard.Approval.Once.{
  waiting, AllFresh, settlements, SettledOnce, run-SettledOnce,
}
use agent_permission_guard.Approval.Deciding.{IsApproved, ByDecision, step-IsApproved}
use agent_permission_guard.Approval.Closing.{close-settles}
use agent_permission_guard.Stage.Live.{
  advance_all, input_validated, local_resources_created, live_phases, new_authority,
}
use agent_permission_guard.Stage.Live.Order.{advance_all-take}

abbrev at : ℕ → Env
at n = record { now = n; accepts = true; commits = true }

abbrev asked_call : AuditCall
asked_call = begin mcp_proxy_call ask 1

-- A call that is approved, made and completed.
abbrev whole_life : List (Env × Method)
whole_life =
    (at 2, request_approval (codes "t1") 900)
    ∷ (at 3, resolve_approval (codes "t1") approved)
    ∷ (at 4, dispatch)
    ∷ (at 5, complete false)
    ∷ []

run-begin_safe_example :
    (blocks (run whole_life asked_call).rows.events + starts (run whole_life asked_call).rows.events
      ≤ 1)
    × (outcomes (run whole_life asked_call).rows.events
        ≤ starts (run whole_life asked_call).rows.events)
run-begin_safe_example = run-begin_safe mcp_proxy_call ask 1 whole_life

run-begin_approved_example : was_approved (run whole_life asked_call).rows.events ≡ true
unfolding run invoke starts begin mark_approval_requested mark_approval_resolved mark_forwarding
    mark_completed resolve_rows text_eq
run-begin_approved_example = run-begin_approved mcp_proxy_call ask 1 whole_life refl (omega arith)

abbrev ended_call : AuditCall
ended_call = run whole_life asked_call

invoke_terminal_example :
    (after (invoke (at 6) dispatch ended_call) ≡ ended_call)
    × (returned (invoke (at 6) dispatch ended_call) ≡ false)
unfolding run mark_completed mark_forwarding mark_approval_resolved mark_approval_requested begin
    text_eq
invoke_terminal_example = invoke_terminal (at 6) dispatch ended_call refl

abbrev token_1 : Value
token_1 = object (entry (codes "token") (text (codes "a")) end)

abbrev token_2 : Value
token_2 = object (entry (codes "token") (text (codes "b")) end)

redact_for_audit-SameButSecrets_example : redact_for_audit token_1 ≡ redact_for_audit token_2
unfolding is_secret_key
redact_for_audit-SameButSecrets_example =
    redact_for_audit-SameButSecrets token_1 token_2 (same_object (secret_entry refl same_end))

-- A stand-in for the digest, which prints no line feed.
abbrev a_hash : Text → Text
a_hash [] = codes "0"
a_hash (c ∷ s) = (if c == 10 then 11 else c) ∷ []

a_hash-HasNoNewline : (s : Text) → HasNoNewline (a_hash s)
a_hash-HasNoNewline [] = (λ e. absurd (omega (arith, e)), tt)
a_hash-HasNoNewline (c ∷ s) = elim (Bool-cases (c == 10)) [
  | inl e ↦ rw e (λ q. absurd (omega (arith, q)), tt)
  | inr e ↦ rw e (λ q. false≢true (sym e ∙ rw q), tt)
]

abbrev two_events : List EventRow
two_events = append_event a_hash (codes "b") (append_event a_hash (codes "a") [])

verify-append_event_example : verify_hash_chain a_hash (append_event a_hash (codes "b") []) ≡ true
unfolding verify_hash_chain
verify-append_event_example = verify-append_event a_hash (codes "b") [] refl

verify_hash_chain_unique_example : Collision a_hash ⊎ (two_events ≡ two_events)
unfolding verify_hash_chain append_event text_eq
verify_hash_chain_unique_example =
    verify_hash_chain_unique a_hash a_hash-HasNoNewline two_events two_events refl refl refl refl

run-SettledOnce_example : SettledOnce (
    Approval.run
      (requests false (codes "t1") (text []) 1 1000 ∷ fires (codes "t1") ∷ [])
      empty_service)
unfolding AllFresh settlements waiting
run-SettledOnce_example =
    run-SettledOnce (requests false (codes "t1") (text []) 1 1000 ∷ fires (codes "t1") ∷ [])
      empty_service (refl, (tt, tt)) (λ j. omega arith)

abbrev one_pending : Service
one_pending = step (requests false (codes "t1") (text []) 1 1000) empty_service

step-IsApproved_example :
    IsApproved (codes "t1") one_pending
    ⊎ ByDecision (codes "t1") (decides (codes "t1") true 500) one_pending
unfolding step Approval.decide request text_eq
step-IsApproved_example =
    step-IsApproved (codes "t1") (decides (codes "t1") true 500) one_pending (inl refl)

close-settles_example :
    ((close one_pending).pending ≡ [])
    × All
        (λ (e : PendingEntry). In (e.id, cancelled) (close one_pending).settled)
        one_pending.pending
    × All (λ x. In x (close one_pending).settled) one_pending.settled
    × ((id : Text) (arguments : Value) (now ttl : ℕ)
        → request id arguments now ttl (close one_pending) ≡ err service_closed)
unfolding step request text_eq
close-settles_example = close-settles one_pending refl

advance_all-take_example :
    (input_validated ∷ local_resources_created ∷ [] ≡ take 2 (drop 0 live_phases)) × (2 ≡ 0 + 2)
unfolding advance_all
advance_all-take_example =
    advance_all-take (input_validated ∷ local_resources_created ∷ []) new_authority
      (record { index = 2; is_terminal = false }) refl
