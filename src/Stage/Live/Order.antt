-- ===== src/Stage/Live/Order.antt =====
-- The order of the phases: any advance is to the next one.
use agent_permission_guard.Base.{
  ==_iff, Bool-cases, Option-cases, length, get_elem?, take, drop, ℕ, zero, suc, ◌+◌, ◌≡◌, refl,
  sym, ap, ◌∙◌, inl, inr, Bool, true, false, ◌||◌, not, false≢true, Option, none, some, List, [],
  ◌∷◌, arith,
}
use agent_permission_guard.Stage.Live.{
  Phase, input_validated, local_resources_created, runtime_snapshotted, containment_probed,
  plan_ready, audit_session_ready, approval_pending, authorized, broker_armed, npm_running,
  listener_draining, broker_finalized, post_state_validated, candidate_compiled, output_durable,
  workspace_cleaned, terminal_committed, complete, live_phases, PhaseAuthority, phase_number,
  is_phase, advance, advance_all,
}

number-elem : (p : Phase) → get_elem? live_phases (phase_number p) ≡ some p
unfolding live_phases phase_number
number-elem input_validated = refl
number-elem local_resources_created = refl
number-elem runtime_snapshotted = refl
number-elem containment_probed = refl
number-elem plan_ready = refl
number-elem audit_session_ready = refl
number-elem approval_pending = refl
number-elem authorized = refl
number-elem broker_armed = refl
number-elem npm_running = refl
number-elem listener_draining = refl
number-elem broker_finalized = refl
number-elem post_state_validated = refl
number-elem candidate_compiled = refl
number-elem output_durable = refl
number-elem workspace_cleaned = refl
number-elem terminal_committed = refl
number-elem complete = refl

-- The phase that `advance` accepts is the one at the index.
accepted : (o : Option Phase) (p : Phase) → is_phase o p ≡ true → o ≡ some p
unfolding is_phase
accepted none p h = absurd (false≢true h)
accepted (some q) p h =
    sym (number-elem q) ∙ rw ((==_iff (phase_number q) (phase_number p)).0 h) (number-elem p)

drop-elem :
    (ps : List Phase) (n : ℕ) (p : Phase)
    → get_elem? ps n ≡ some p
    → drop n ps ≡ p ∷ drop (suc n) ps
drop-elem [] n p h = absurd (ground arith)
drop-elem (q ∷ qs) zero p h = ground arith
drop-elem (q ∷ qs) (suc n) p h = drop-elem qs n p h

not-or : (a b : Bool) → (a || not b) ≡ false → b ≡ true
not-or a b h = ground arith

some-inj : {a b : PhaseAuthority} → some a ≡ some b → a ≡ b
some-inj e = cc

advance-next :
    (p : Phase) (a b : PhaseAuthority)
    → advance p a ≡ some b
    → (get_elem? live_phases a.index ≡ some p) × (b.index ≡ suc a.index)
unfolding advance
advance-next p a b h =
    elim (Bool-cases (a.is_terminal || not (is_phase (get_elem? live_phases a.index) p))) [
      | inl e ↦ absurd (let q = rw (e, advance) at h in cc)
      | inr e ↦ (
        accepted (get_elem? live_phases a.index) p (not-or a.is_terminal _ e),
        ap (λ x. x.index) (sym (some-inj (rw (e, advance) at h))),
      )
    ]

-- The phases through which a run advances are the next ones of the list, in its order and none left
-- out, and the index counts them.
pub advance_all-take :
    (ps : List Phase) (a b : PhaseAuthority)
    → advance_all ps a ≡ some b
    → (ps ≡ take (length ps) (drop a.index live_phases)) × (b.index ≡ a.index + length ps)
unfolding advance_all
advance_all-take [] a b h = (refl, ground arith)
advance_all-take (p ∷ ps) a b h = elim (Option-cases (advance p a)) [
  | inl e ↦ absurd (let q = rw (e, advance_all) at h in cc)
  | inr (m, e) ↦
      let (found, next) = advance-next p a m e in
      let (same, count) = advance_all-take ps m b (rw (e, advance_all) at h) in
      (
        rw (drop-elem live_phases a.index p found) (ap (λ x. p ∷ x) (same ∙ rw next)),
        omega (arith, count, next),
      )
]
