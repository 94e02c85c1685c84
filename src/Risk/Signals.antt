-- ===== src/Risk/Signals.antt =====
-- The data of risk/types.ts, the values that are inspected, and the map of signals.
use agent_permission_guard.Base.{
  ◌==◌, if◌then◌else◌, any, Text, ℕ, Bool, Option, List, [], ◌∷◌, ◌++◌,
}
use agent_permission_guard.Json.{Fields}

-- `RiskTag`; the signal codes are the tags but `local_read` (the scorer never raises
-- `unknown_tool`).
pub data RiskTag : Type 0 where
  local_read local_write destructive external_side_effect credential_access : RiskTag
  privileged_target broad_target shell_execution open_world : RiskTag

-- The place of each tag in the order of `localeCompare` on the codes, whose first letters differ.
unfoldable pub tag_rank : RiskTag → ℕ
tag_rank broad_target = 0
tag_rank credential_access = 1
tag_rank destructive = 2
tag_rank external_side_effect = 3
tag_rank local_read = 4
tag_rank local_write = 5
tag_rank open_world = 6
tag_rank privileged_target = 7
tag_rank shell_execution = 8

unfoldable pub tag_eq : RiskTag → RiskTag → Bool
unfolding tag_rank
tag_eq a b = tag_rank a == tag_rank b

-- `SIGNAL_POINTS`; `local_read` has no entry there.
unfoldable pub signal_points : RiskTag → ℕ
signal_points local_read = 0
signal_points local_write = 20
signal_points destructive = 30
signal_points external_side_effect = 25
signal_points credential_access = 25
signal_points privileged_target = 25
signal_points broad_target = 20
signal_points shell_execution = 20
signal_points open_world = 10

pub data SignalSource : Type 0 where
  policy_tag tool_name argument_key argument_value annotation : SignalSource

-- The text `$.key[3]…` of an evidence path, before it is printed.
pub data EvidencePath : Type 0 where
  root : EvidencePath
  field : EvidencePath → Text → EvidencePath
  element : EvidencePath → ℕ → EvidencePath

pub record RiskSignal : Type 0 where
  pub code : RiskTag
  pub points : ℕ
  pub source : SignalSource
  pub evidence_path : Option EvidencePath

pub data RiskBand : Type 0 where
  low medium high critical : RiskBand

pub record RiskAssessment : Type 0 where
  pub score : ℕ
  pub band : RiskBand
  pub signals : List RiskSignal

pub record Annotations : Type 0 where
  pub destructive_hint : Bool
  pub open_world_hint : Bool

pub record RiskInput : Type 0 where
  pub tool_name : Text
  pub arguments : Fields
  pub policy_tags : List RiskTag
  pub annotations : Option Annotations

unfoldable pub has_signal : RiskTag → List RiskSignal → Bool
has_signal c = any (λ s. tag_eq c s.code)

-- `Map.set` of a key that is not there appends.
unfoldable pub add_signal :
    List RiskSignal → RiskTag → ℕ → SignalSource → Option EvidencePath → List RiskSignal
add_signal signals c n s path =
    if has_signal c signals
    then signals
    else signals ++ record { code = c; points = n; source = s; evidence_path = path } ∷ []
