-- ===== src/Stage/States/Checkpoints.antt =====
-- What a stage has gone through before it is ready.
use agent_permission_guard.Base.{
  leb, ◌==◌, ==_iff, Bool-cases, Option-cases, and-true, or-true, any, all, In, all-In, ℕ, ◌≡◌,
  refl, subst, inl, inr, Bool, true, false, ◌&&◌, ◌||◌, not, false≢true, some, List, [], ◌∷◌, arith,
}
use agent_permission_guard.Stage.States.{
  StageState, profile_selected, metadata_confirming, plan_ready, stage_approval_pending,
  downloading, artifacts_verified, pass_a_running, archives_preflighted, pass_b_running,
  materializing, tree_verified, ready_to_commit, sealed_pending_audit, ready,
  startup_approval_pending, starting, active, stopped, failed_quarantine, invalid, active_unknown,
  terminated_incomplete, next_states, state_number, transition, transitions,
}

every_state : List StageState
every_state =
    profile_selected ∷ metadata_confirming ∷ plan_ready ∷ stage_approval_pending ∷ downloading
    ∷ artifacts_verified ∷ pass_a_running ∷ archives_preflighted ∷ pass_b_running ∷ materializing
    ∷ tree_verified ∷ ready_to_commit ∷ sealed_pending_audit ∷ ready ∷ startup_approval_pending
    ∷ starting ∷ active ∷ stopped ∷ active_unknown ∷ terminated_incomplete ∷ invalid
    ∷ failed_quarantine ∷ []

In-every : (s : StageState) → In s every_state
unfolding every_state
In-every profile_selected = inl refl
In-every metadata_confirming = inr (inl refl)
In-every plan_ready = inr (inr (inl refl))
In-every stage_approval_pending = inr (inr (inr (inl refl)))
In-every downloading = inr (inr (inr (inr (inl refl))))
In-every artifacts_verified = inr (inr (inr (inr (inr (inl refl)))))
In-every pass_a_running = inr (inr (inr (inr (inr (inr (inl refl))))))
In-every archives_preflighted = inr (inr (inr (inr (inr (inr (inr (inl refl)))))))
In-every pass_b_running = inr (inr (inr (inr (inr (inr (inr (inr (inl refl))))))))
In-every materializing = inr (inr (inr (inr (inr (inr (inr (inr (inr (inl refl)))))))))
In-every tree_verified = inr (inr (inr (inr (inr (inr (inr (inr (inr (inr (inl refl))))))))))
In-every ready_to_commit =
    inr (inr (inr (inr (inr (inr (inr (inr (inr (inr (inr (inl refl)))))))))))
In-every sealed_pending_audit =
    inr (inr (inr (inr (inr (inr (inr (inr (inr (inr (inr (inr (inl refl))))))))))))
In-every ready =
    inr (inr (inr (inr (inr (inr (inr (inr (inr (inr (inr (inr (inr (inl refl)))))))))))))
In-every startup_approval_pending =
    inr (inr (inr (inr (inr (inr (inr (inr (inr (inr (inr (inr (inr (inr (inl refl))))))))))))))
In-every starting =
    inr
      (inr (inr (inr (inr (inr (inr (inr (inr (inr (inr (inr (inr (inr (inr (inl refl)))))))))))))))
In-every active = inr (
    inr (
      inr (inr (inr (inr (inr (inr (inr (inr (inr (inr (inr (inr (inr (inr (inl refl))))))))))))))))
In-every stopped = inr (
    inr (
      inr (
        inr (
          inr (inr (inr (inr (inr (inr (inr (inr (inr (inr (inr (inr (inr (inl refl)))))))))))))))))
In-every active_unknown = inr (
    inr (
      inr (
        inr (
          inr (
            inr (
              inr (inr (inr (inr (inr (inr (inr (inr (inr (inr (inr (inr (inl refl))))))))))))))))))
In-every terminated_incomplete = inr (
    inr (
      inr (
        inr (
          inr (
            inr (
              inr (
                inr (
                  inr (inr (inr (inr (inr (inr (inr (inr (inr (inr (inr (inl refl)))))))))))))))))))
In-every invalid = inr (
    inr (
      inr (
        inr (
          inr (
            inr (
              inr (
                inr (
                  inr (
                    inr (
                      inr (inr (inr (inr (inr (inr (inr (inr (inr (inr (inl refl))))))))))))))))))))
In-every failed_quarantine = inr (
    inr (
      inr (
        inr (
          inr (
            inr (
              inr (
                inr (
                  inr (
                    inr (
                      inr (
                        inr (
                          inr (inr (inr (inr (inr (inr (inr (inr (inr (inl refl)))))))))))))))))))))

-- A state at or behind a checkpoint, by their numbers; a failed stage is behind none.
abbrev reached : ℕ → ℕ → Bool
reached c n = leb c n && not (n == 21)

-- A step to a state behind the checkpoint starts behind it, or enters it.
abbrev enters : ℕ → ℕ → ℕ → Bool
enters c s t = not (reached c t) || (reached c s || c == t)

abbrev checks : StageState → StageState → Bool
checks c s = all (λ t. enters (state_number c) (state_number s) (state_number t)) (next_states s)

-- The states that every ready stage has entered.
abbrev pub checkpoints : List StageState
checkpoints =
    metadata_confirming ∷ plan_ready ∷ stage_approval_pending ∷ downloading ∷ artifacts_verified
    ∷ archives_preflighted ∷ materializing ∷ tree_verified ∷ ready_to_commit ∷ ready ∷ []

all_check : all (λ c. all (checks c) every_state) checkpoints ≡ true
unfolding every_state next_states state_number
all_check = refl

-- A test of the numbers that holds of a list holds of what has a number in it.
all-any :
    (q : ℕ → Bool) (n : StageState) (ss : List StageState)
    → all (λ t. q (state_number t)) ss ≡ true
    → any (λ t. state_number n == state_number t) ss ≡ true
    → q (state_number n) ≡ true
all-any q n [] h k = absurd (false≢true k)
all-any q n (s ∷ ss) h k = elim (or-true (state_number n == state_number s) _ k) [
  | inl e ↦
      rw ((==_iff (state_number n) (state_number s)).0 e) (and-true (q (state_number s)) _ h).0
  | inr m ↦ all-any q n ss (and-true (q (state_number s)) _ h).1 m
]

-- `c` is in a sequence of states.
unfoldable pub visits : StageState → List StageState → Bool
unfolding state_number
visits c = any (λ n. state_number c == state_number n)

transition-same :
    (s n t : StageState)
    → transition s n ≡ some t
    → (n ≡ t) × (any (λ m. state_number n == state_number m) (next_states s) ≡ true)
unfolding transition
transition-same s n t h =
    elim (Bool-cases (any (λ m. state_number n == state_number m) (next_states s))) [
      | inl e ↦ (let q = rw (e, transition) at h in cc, e)
      | inr e ↦ absurd (let q = rw (e, transition) at h in cc)
    ]

or-right : (a : Bool) {b : Bool} → b ≡ true → (a || b) ≡ true
or-right true e = refl
or-right false e = e

-- The checkpoints stand behind the start, and not behind `ready`.
all_between :
    all (λ c. not (reached (state_number c) 0) && leb (state_number c) 13) checkpoints ≡ true
unfolding state_number
all_between = refl

module _ (c : StageState) (checked : all (checks c) every_state ≡ true) where
  step-enters :
      (s n t : StageState)
      → transition s n ≡ some t
      → enters (state_number c) (state_number s) (state_number t) ≡ true
  step-enters s n t h =
      let (same, follows) = transition-same s n t h in
      subst (λ x. enters (state_number c) (state_number s) (state_number x) ≡ true) same
        (all-any (enters (state_number c) (state_number s)) n (next_states s)
          (all-In (checks c) every_state checked (In-every s)) follows)

  visited :
      (ns : List StageState) (s t : StageState)
      → reached (state_number c) (state_number s) ≡ false
      → transitions ns s ≡ some t
      → reached (state_number c) (state_number t) ≡ true
      → visits c ns ≡ true
  unfolding transitions visits
  visited [] s t out h r = absurd (ground arith)
  visited (n ∷ ns) s t out h r = elim (Option-cases (transition s n)) [
    | inl e ↦ absurd (let q = rw (e, transitions) at h in cc)
    | inr (m, e) ↦ elim (Bool-cases (reached (state_number c) (state_number m))) [
      | inl f ↦ ground (arith, step-enters s n m e, transition-same s n m e, f, out)
      | inr f ↦
          or-right (state_number c == state_number n)
            (visited ns m t f (rw (e, transitions) at h) r)
    ]
  ]

starts_before : (c : ℕ) → (not (reached c 0) && leb c 13) ≡ true → reached c 0 ≡ false
starts_before c h = ground arith

ends_behind :
    (c n : ℕ)
    → (not (reached c 0) && leb c 13) ≡ true
    → (leb 13 n && not (n == 21)) ≡ true
    → reached c n ≡ true
ends_behind c n h k = ground arith

-- A stage that is ready, or has been.
abbrev pub has_been_ready : StageState → Bool
has_been_ready s = leb (state_number ready) (state_number s) && not (state_number s == 21)

-- A sequence of transitions from the start that leads to a state at or behind `ready`, the failed
-- quarantine apart, has entered every checkpoint: the approval of the stage, the download, the
-- verified artifacts, the preflight, the materialised and verified tree and the commit.
pub ready-visits :
    (ns : List StageState) (t : StageState)
    → transitions ns profile_selected ≡ some t
    → has_been_ready t ≡ true
    → (c : StageState) → In c checkpoints
    → visits c ns ≡ true
unfolding state_number
ready-visits ns t h r c m =
    let between =
      all-In (λ x. not (reached (state_number x) 0) && leb (state_number x) 13) checkpoints
        all_between m in
    visited c (all-In (λ x. all (checks x) every_state) checkpoints all_check m) ns profile_selected
      t (starts_before (state_number c) between) h (ends_behind (state_number c) _ between r)
