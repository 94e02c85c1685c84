-- ===== src/Install/Service/Guarded.antt =====
-- When `InstallGuardService.run` of install/service.ts calls the runner.
use agent_permission_guard.Base.{
  Bool-cases, codes, text_eq, text_eq_iff, ◌≡◌, refl, sym, ap, ◌∙◌, subst, ◌≢◌, ◌⊎◌, inl, inr, Bool,
  true, false, false≢true, Option, none, some, List, [], ◌∷◌, ◌++◌, arith,
}
use agent_permission_guard.Policy.Schema.{Decision}
use agent_permission_guard.Audit.Records.{ApprovalOutcome, approved, denied, expired, cancelled}
use agent_permission_guard.Install.{
  InstallRequest, PackageMetadata, Resolution, resolved, unresolved, unavailable, contradictory,
  is_exact_version,
}
use agent_permission_guard.Install.Policy.{InstallEvaluation, evaluate_install_policy}
use agent_permission_guard.Install.Service.{
  ExecutionStatus, InstallEvent, begun, approval_requested, executing, runner_called,
  marked_completed, approval_resolved, marked_failed, InstallInputs, Ran, after_execution, execute,
  after_outcome, approval_unavailable, ask_install, validate_resolution, is_resolved,
  execution_evaluation, run_evaluated, evaluate_install, run_resolved, run_install,
}

unfoldable pub was_run : List InstallEvent → Bool
was_run [] = false
was_run (runner_called ∷ trace) = true
was_run (_ ∷ trace) = was_run trace

-- The trace continues `trace` with a start that was recorded and the runner's call.
abbrev pub RunAfter : List InstallEvent → Ran → Type 0
RunAfter trace r =
    (rest : List InstallEvent) × (r.trace ≡ rest ++ runner_called ∷ executing ∷ trace)

module _ (i : InstallInputs) where
  after_execution-RunAfter :
      (result : Option (ExecutionStatus × Bool)) (trace : List InstallEvent)
      → RunAfter trace (after_execution i result (runner_called ∷ executing ∷ trace))
  unfolding after_execution
  after_execution-RunAfter none trace = elim (Bool-cases i.marks_failed) [
    | inl e ↦ (marked_failed (codes "install_runner_failed") ∷ [], rw (e, after_execution))
    | inr e ↦ ([], rw (e, after_execution))
  ]
  after_execution-RunAfter (some (s, unverified)) trace = elim (Bool-cases i.marks_completed) [
    | inl e ↦ (marked_completed ∷ [], rw (e, after_execution))
    | inr e ↦ elim (Bool-cases i.marks_failed) [
      | inl f ↦
          (marked_failed (codes "install_audit_completion_failed") ∷ [], rw (e, f, after_execution))
      | inr f ↦ ([], rw (e, f, after_execution))
    ]
  ]

  execute-RunAfter :
      (trace : List InstallEvent)
      → was_run trace ≡ false
      → was_run (execute i trace).trace ≡ true
      → RunAfter trace (execute i trace)
  unfolding execute
  execute-RunAfter trace fresh h = elim (Bool-cases i.marks_executing) [
    | inl e ↦ rw (e, execute) (after_execution-RunAfter i.execution trace)
    | inr e ↦ absurd (false≢true (sym fresh ∙ rw (e, execute) at h))
  ]

  -- The trace behind the approval.
  abbrev asked : List InstallEvent → List InstallEvent
  asked trace = approval_resolved i.outcome ∷ approval_requested ∷ trace

  after_outcome-RunAfter :
      (o : ApprovalOutcome) (trace : List InstallEvent)
      → was_run trace ≡ false
      → was_run (after_outcome i o trace).trace ≡ true
      → (o ≡ approved) × RunAfter trace (after_outcome i o trace)
  unfolding after_outcome was_run
  after_outcome-RunAfter approved trace fresh h = (refl, execute-RunAfter trace fresh h)
  after_outcome-RunAfter denied trace fresh h = absurd (ground arith)
  after_outcome-RunAfter expired trace fresh h = absurd (ground arith)
  after_outcome-RunAfter cancelled trace fresh h = absurd (ground arith)

  unavailable-not_run :
      (cancels : Bool) (trace : List InstallEvent)
      → was_run trace ≡ false
      → was_run (approval_unavailable i cancels trace).trace ≡ false
  unfolding approval_unavailable was_run
  unavailable-not_run cancels trace fresh = ground arith

  ask_install-RunAfter :
      (trace : List InstallEvent)
      → was_run trace ≡ false
      → was_run (ask_install i trace).trace ≡ true
      → (i.outcome ≡ approved) × RunAfter (asked trace) (ask_install i trace)
  unfolding ask_install was_run
  ask_install-RunAfter trace fresh h = elim (Bool-cases i.requests) [
    | inr e ↦
        absurd (false≢true (sym (unavailable-not_run false trace fresh) ∙ rw (e, ask_install) at h))
    | inl e ↦ elim (Bool-cases i.marks_requested) [
      | inr f ↦
          absurd
            (false≢true (sym (unavailable-not_run true trace fresh) ∙ rw (e, f, ask_install) at h))
      | inl f ↦ elim (Bool-cases i.marks_resolved) [
        | inr g ↦ absurd (false≢true (sym fresh ∙ rw (e, f, g, ask_install) at h))
        | inl g ↦
            rw (e, f, g, ask_install)
              (after_outcome-RunAfter i.outcome (asked trace) fresh
                (rw (e, f, g, ask_install) at h))
      ]
    ]
  ]

-- `executionEvaluation` never allows: it asks for what the policy does not deny, if it is resolved.
execution-asks :
    (found : Bool) (e : InstallEvaluation)
    → ((execution_evaluation found e).effective_decision ≡ Decision.deny)
      ⊎ ((execution_evaluation found e).effective_decision ≡ Decision.ask)
        × (found ≡ true)
        × (e.effective_decision ≢ Decision.deny)
unfolding execution_evaluation
execution-asks found e = ground arith

-- What the guard knows of an install that it has started.
pub record Cleared (request : InstallRequest) (i : InstallInputs) (trace : List InstallEvent)
    : Type 0 where
  -- The resolution is one package with the requested name, in an exact version.
  pub chosen : PackageMetadata
  pub is_resolution : i.resolution ≡ some (resolved chosen)
  pub same_name : chosen.package_name ≡ request.package_name
  pub exact : is_exact_version chosen.version ≡ true
  -- The policy does not deny it, and a human approved it.
  pub not_denied : (evaluate_install_policy (resolved chosen)).effective_decision ≢ Decision.deny
  pub is_approved : i.outcome ≡ approved
  -- The runner's call stands behind these events, each of them recorded.
  pub history :
      (rest : List InstallEvent) × (trace
        ≡ rest
          ++ runner_called
            ∷ executing
            ∷ approval_resolved approved
            ∷ approval_requested
            ∷ begun
            ∷ [])

validated :
    (request : InstallRequest) (r : Resolution)
    → is_resolved (validate_resolution request r) ≡ true
    → (m : PackageMetadata) × (r ≡ resolved m)
      × (validate_resolution request r ≡ resolved m)
      × (m.package_name ≡ request.package_name)
      × (is_exact_version m.version ≡ true)
unfolding validate_resolution
validated request (resolved m) h = elim (Bool-cases (text_eq m.package_name request.package_name)) [
  | inl e ↦ elim (Bool-cases (is_exact_version m.version)) [
    | inl f ↦ (
      m,
      refl,
      rw (e, f, validate_resolution),
      (text_eq_iff m.package_name request.package_name).0 e,
      f,
    )
    | inr f ↦ absurd (false≢true (rw (e, f, validate_resolution) at h))
  ]
  | inr e ↦ absurd (false≢true (rw (e, validate_resolution) at h))
]
validated request (unresolved x) h = absurd (false≢true h)
validated request (unavailable x) h = absurd (ground arith)
validated request (contradictory x) h = absurd (ground arith)

run_evaluated-asked :
    (i : InstallInputs) (found : Bool) (d : Decision)
    → (d ≡ Decision.deny) ⊎ (d ≡ Decision.ask) × (found ≡ true)
    → was_run (run_evaluated i found d).trace ≡ true
    → (d ≡ Decision.ask)
      × (found ≡ true)
      × (i.outcome ≡ approved)
      × RunAfter (asked i (begun ∷ [])) (run_evaluated i found d)
unfolding run_evaluated was_run
run_evaluated-asked i found Decision.deny d h = absurd (ground arith)
run_evaluated-asked i found Decision.allow d h = absurd (ground (arith, d))
run_evaluated-asked i found Decision.ask d h = elim (Bool-cases found) [
  | inr e ↦ absurd (false≢true (rw (e, run_evaluated) at h))
  | inl e ↦ elim (Bool-cases i.plans) [
    | inl f ↦ elim (Bool-cases i.begins) [
      | inl g ↦
          let (o, rest) =
            ask_install-RunAfter i (begun ∷ []) refl (rw (e, f, g, run_evaluated) at h) in
          (refl, e, o, rw (e, f, g, run_evaluated) rest)
      | inr g ↦ absurd (false≢true (rw (e, f, g, run_evaluated) at h))
    ]
    | inr f ↦ absurd (ground (arith, e, f))
  ]
]

deny≢ask : ¬ (Decision.deny ≡ Decision.ask)
deny≢ask e = cc

run_resolved-Cleared :
    (request : InstallRequest) (i : InstallInputs) (found : Option Resolution)
    → i.resolution ≡ found
    → was_run (run_resolved request i found).trace ≡ true
    → Cleared request i (run_resolved request i found).trace
unfolding run_resolved was_run evaluate_install
run_resolved-Cleared request i none e h = absurd (false≢true h)
run_resolved-Cleared request i (some r) e h =
    let found = is_resolved (validate_resolution request r) in
    let policy = evaluate_install_policy (validate_resolution request r) in
    let d = (execution_evaluation found policy).effective_decision in
    elim (execution-asks found policy) [
      | inl q ↦
          let late = (run_evaluated-asked i found d (inl q) h).0 in absurd (deny≢ask (sym q ∙ late))
      | inr (q, f, permitted) ↦
          let (_, _, agreed, ran) = run_evaluated-asked i found d (inr (q, f)) h in
          let (m, is_m, valid, same, exact_version) = validated request r f in
          record {
            chosen = m;
            is_resolution = e ∙ ap some is_m;
            same_name = same;
            exact = exact_version;
            not_denied =
                subst (λ x. (evaluate_install_policy x).effective_decision ≢ Decision.deny) valid
                  permitted;
            is_approved = agreed;
            history = (ran.0, ran.1 ∙ rw agreed);
          }
    ]

-- If the install guard calls the runner, the resolution was of one package with the requested name
-- in an exact version, the built-in policy did not deny it, a human approved it, and the call stands
-- in the trace behind the begun audit, the request, the approval and the recorded start.
pub run_install-Cleared :
    (request : InstallRequest) (i : InstallInputs)
    → was_run (run_install request i).trace ≡ true
    → Cleared request i (run_install request i).trace
unfolding run_install
run_install-Cleared request i h = run_resolved-Cleared request i i.resolution refl h
