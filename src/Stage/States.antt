-- ===== src/Stage/States.antt =====
-- stage/state-machine.ts: the states of a package stage.
pub mod Checkpoints
use agent_permission_guard.Base.{◌==◌, if◌then◌else◌, any, ℕ, Option, none, some, List, [], ◌∷◌}

-- `PackageStageState`
pub data StageState : Type 0 where
  profile_selected metadata_confirming plan_ready stage_approval_pending : StageState
  downloading artifacts_verified pass_a_running archives_preflighted : StageState
  pass_b_running materializing tree_verified ready_to_commit : StageState
  sealed_pending_audit ready startup_approval_pending starting : StageState
  active stopped failed_quarantine invalid active_unknown terminated_incomplete : StageState

-- `NEXT_STATES`
unfoldable pub next_states : StageState → List StageState
next_states profile_selected = metadata_confirming ∷ failed_quarantine ∷ []
next_states metadata_confirming = plan_ready ∷ failed_quarantine ∷ []
next_states plan_ready = stage_approval_pending ∷ failed_quarantine ∷ []
next_states stage_approval_pending = downloading ∷ failed_quarantine ∷ []
next_states downloading = artifacts_verified ∷ failed_quarantine ∷ []
next_states artifacts_verified = pass_a_running ∷ archives_preflighted ∷ failed_quarantine ∷ []
next_states pass_a_running = archives_preflighted ∷ failed_quarantine ∷ []
next_states archives_preflighted = pass_b_running ∷ materializing ∷ failed_quarantine ∷ []
next_states pass_b_running = materializing ∷ failed_quarantine ∷ []
next_states materializing = tree_verified ∷ failed_quarantine ∷ []
next_states tree_verified = ready_to_commit ∷ failed_quarantine ∷ []
next_states ready_to_commit = sealed_pending_audit ∷ ready ∷ failed_quarantine ∷ []
next_states sealed_pending_audit = ready ∷ failed_quarantine ∷ []
next_states ready = startup_approval_pending ∷ invalid ∷ []
next_states startup_approval_pending = starting ∷ invalid ∷ []
next_states starting = active ∷ terminated_incomplete ∷ invalid ∷ []
next_states active = stopped ∷ active_unknown ∷ terminated_incomplete ∷ []
next_states stopped = []
next_states failed_quarantine = []
next_states invalid = []
next_states active_unknown = stopped ∷ terminated_incomplete ∷ []
next_states terminated_incomplete = []

-- The place of a state in the declaration.
unfoldable pub state_number : StageState → ℕ
state_number profile_selected = 0
state_number metadata_confirming = 1
state_number plan_ready = 2
state_number stage_approval_pending = 3
state_number downloading = 4
state_number artifacts_verified = 5
state_number pass_a_running = 6
state_number archives_preflighted = 7
state_number pass_b_running = 8
state_number materializing = 9
state_number tree_verified = 10
state_number ready_to_commit = 11
state_number sealed_pending_audit = 12
state_number ready = 13
state_number startup_approval_pending = 14
state_number starting = 15
state_number active = 16
state_number stopped = 17
state_number active_unknown = 18
state_number terminated_incomplete = 19
state_number invalid = 20
state_number failed_quarantine = 21

-- `transition`, which throws for a state that may not follow.
unfoldable pub transition : StageState → StageState → Option StageState
unfolding next_states state_number
transition state next =
    if any (λ s. state_number next == state_number s) (next_states state) then some next else none

-- A sequence of transitions, all of which must return.
unfoldable pub transitions : List StageState → StageState → Option StageState
unfolding transition
transitions [] state = some state
transitions (n ∷ ns) state = elim (transition state n) [ none ↦ none | some s ↦ transitions ns s ]
