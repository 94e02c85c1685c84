-- ===== src/Stage/Live.antt =====
-- stage/graph-genesis-live-state.ts: the phases of a live run, and how a failure ends it.
pub mod Order
use agent_permission_guard.Base.{
  ◌==◌, if◌then◌else◌, get_elem?, ℕ, zero, suc, Bool, true, false, ◌&&◌, ◌||◌, not, Option, none,
  some, List, [], ◌∷◌,
}

pub data Phase : Type 0 where
  input_validated local_resources_created runtime_snapshotted containment_probed : Phase
  plan_ready audit_session_ready approval_pending authorized broker_armed : Phase
  npm_running listener_draining broker_finalized post_state_validated : Phase
  candidate_compiled output_durable workspace_cleaned terminal_committed complete : Phase

-- `GRAPH_GENESIS_LIVE_PHASES`
unfoldable pub live_phases : List Phase
live_phases =
    input_validated ∷ local_resources_created ∷ runtime_snapshotted ∷ containment_probed
    ∷ plan_ready ∷ audit_session_ready ∷ approval_pending ∷ authorized ∷ broker_armed ∷ npm_running
    ∷ listener_draining ∷ broker_finalized ∷ post_state_validated ∷ candidate_compiled
    ∷ output_durable ∷ workspace_cleaned ∷ terminal_committed ∷ complete ∷ []

-- The number of phases done, which is one more than the source's `#index`, and `#terminal`.
pub record PhaseAuthority : Type 0 where
  pub index : ℕ
  pub is_terminal : Bool

abbrev pub new_authority : PhaseAuthority
new_authority = record { index = 0; is_terminal = false }

unfoldable pub phase_number : Phase → ℕ
phase_number input_validated = 0
phase_number local_resources_created = 1
phase_number runtime_snapshotted = 2
phase_number containment_probed = 3
phase_number plan_ready = 4
phase_number audit_session_ready = 5
phase_number approval_pending = 6
phase_number authorized = 7
phase_number broker_armed = 8
phase_number npm_running = 9
phase_number listener_draining = 10
phase_number broker_finalized = 11
phase_number post_state_validated = 12
phase_number candidate_compiled = 13
phase_number output_durable = 14
phase_number workspace_cleaned = 15
phase_number terminal_committed = 16
phase_number complete = 17

-- `GRAPH_GENESIS_LIVE_PHASES[index] !== phase`, negated.
unfoldable pub is_phase : Option Phase → Phase → Bool
unfolding phase_number
is_phase none p = false
is_phase (some q) p = phase_number q == phase_number p

-- `advance`; the source's `#index` is one less than `index`, the number of phases done.
unfoldable pub advance : Phase → PhaseAuthority → Option PhaseAuthority
unfolding is_phase live_phases
advance p a =
    if a.is_terminal || not (is_phase (get_elem? live_phases a.index) p)
    then none
    else some
        (record { index = suc a.index; is_terminal = phase_number p == phase_number complete })

unfoldable pub fail : PhaseAuthority → PhaseAuthority
fail a = record a { is_terminal = true }

-- `complete`: terminal, and the last phase done is `COMPLETE`.
unfoldable pub is_complete : PhaseAuthority → Bool
unfolding live_phases is_phase
is_complete a = a.is_terminal && current_is_complete a.index
  where
    current_is_complete : ℕ → Bool
    current_is_complete zero = false
    current_is_complete (suc n) = is_phase (get_elem? live_phases n) complete

unfoldable pub advance_all : List Phase → PhaseAuthority → Option PhaseAuthority
unfolding advance
advance_all [] a = some a
advance_all (p ∷ ps) a = elim (advance p a) [ none ↦ none | some b ↦ advance_all ps b ]

pub data ExternalRead : Type 0 where
  read_not_started read_incomplete read_validated : ExternalRead

pub data FailureTerminal : Type 0 where
  incomplete_external_read cancelled execution_error : FailureTerminal

-- `selectGraphGenesisFailureTerminalStatus`
unfoldable pub select_failure_terminal_status : ExternalRead → Bool → FailureTerminal
select_failure_terminal_status read_incomplete was_cancelled = incomplete_external_read
select_failure_terminal_status _ was_cancelled =
    if was_cancelled then cancelled else execution_error

pub record Failure : Type 0 where
  pub was_cancelled : Bool
  pub external_read_may_have_occurred : Bool
  pub process_spawned : Bool
  pub cleanup_complete : Bool
  pub cleanup_failed : Bool
  pub root_preserved : Bool
  pub terminal_unknown : Bool

pub data FailureStatus : Type 0 where
  not_started failed incomplete quarantined outcome_unknown : FailureStatus

pub record Classified : Type 0 where
  pub status : FailureStatus
  pub exit_code : ℕ
  pub read_may_have_occurred : Bool

abbrev pub classified : FailureStatus → ℕ → Bool → Classified
classified s code r = record { status = s; exit_code = code; read_may_have_occurred = r }

-- `classifyGraphGenesisFailure`; its reason code goes with the status.
unfoldable pub classify_failure : Failure → Classified
classify_failure f =
    let external = f.external_read_may_have_occurred in
    if f.cleanup_failed
      || not f.process_spawned && f.root_preserved
      || f.process_spawned && not f.cleanup_complete
    then classified quarantined 5 external
    else if f.terminal_unknown
    then classified outcome_unknown 6 external
    else if f.was_cancelled && not f.process_spawned && not external
    then classified not_started 2 false
    else if external
    then classified incomplete 4 external
    else classified failed 3 external
