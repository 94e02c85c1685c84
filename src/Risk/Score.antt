-- ===== src/Risk/Score.antt =====
-- `scoreRisk` of risk/scorer.ts.
pub mod Raised
pub mod Points
use agent_permission_guard.Base.{
  leb, if◌then◌else◌, any, Text, codes, ℕ, ◌+◌, min, Option, none, some, List, [], ◌∷◌,
}
use agent_permission_guard.Json.{
  Value, null, bool, number, text, array, object, Items, nil, cons, Fields, end, entry,
}
use agent_permission_guard.Risk.Patterns.{
  has_word, contains_any, is_any_of, credential_keys, privileged_values, broad_values,
}
use agent_permission_guard.Risk.Signals.{
  RiskTag, local_read, destructive, external_side_effect, credential_access, privileged_target,
  broad_target, shell_execution, open_world, tag_rank, tag_eq, signal_points, policy_tag, tool_name,
  argument_key, argument_value, annotation, EvidencePath, root, field, element, RiskSignal,
  RiskBand, low, medium, high, critical, RiskAssessment, Annotations, RiskInput, add_signal,
}

-- The loop over `policyTags`.
unfoldable pub add_policy_tags : List RiskTag → List RiskSignal → List RiskSignal
add_policy_tags [] signals = signals
add_policy_tags (t ∷ tags) signals = add_policy_tags tags (
    if tag_eq t local_read then signals else add_signal signals t (signal_points t) policy_tag none)

abbrev pub detector_words : RiskTag → List Text
detector_words destructive =
    codes "delete" ∷ codes "destroy" ∷ codes "drop" ∷ codes "erase" ∷ codes "remove" ∷ []
detector_words external_side_effect =
    codes "email" ∷ codes "post" ∷ codes "publish" ∷ codes "push" ∷ codes "send" ∷ []
detector_words shell_execution =
    codes "exec" ∷ codes "shell" ∷ codes "command" ∷ codes "script" ∷ []
detector_words _ = []

-- The codes of TOOL_NAME_PATTERNS, in order.
abbrev pub detectors : List RiskTag
detectors = destructive ∷ external_side_effect ∷ shell_execution ∷ []

unfoldable pub add_detected : List RiskTag → Text → List RiskSignal → List RiskSignal
add_detected [] name signals = signals
add_detected (c ∷ cs) name signals = add_detected cs name (
    if has_word (detector_words c) name
    then add_signal signals c (signal_points c) tool_name none
    else signals)

unfoldable pub inspect_text : Text → EvidencePath → List RiskSignal → List RiskSignal
inspect_text s path signals =
    let first =
      if is_any_of privileged_values s
      then add_signal signals privileged_target (signal_points privileged_target) argument_value
          (some path)
      else signals in
    if is_any_of broad_values s
    then add_signal first broad_target (signal_points broad_target) argument_value (some path)
    else first

unfoldable pub inspect_key : Text → EvidencePath → List RiskSignal → List RiskSignal
inspect_key key path signals =
    if contains_any credential_keys key
    then add_signal signals credential_access (signal_points credential_access) argument_key
        (some path)
    else signals

-- `inspectArguments`: on a value, on the elements of an array from an index, on an object's entries.
unfoldable mutual
  pub inspect_value : Value → EvidencePath → List RiskSignal → List RiskSignal
  inspect_value (array xs) path signals = inspect_items xs 0 path signals
  inspect_value (object fs) path signals = inspect_fields fs path signals
  inspect_value (text s) path signals = inspect_text s path signals
  inspect_value null path signals = signals
  inspect_value (bool _) path signals = signals
  inspect_value (number _) path signals = signals

  pub inspect_items : Items → ℕ → EvidencePath → List RiskSignal → List RiskSignal
  inspect_items nil i path signals = signals
  inspect_items (cons x xs) i path signals =
      inspect_items xs (i + 1) path (inspect_value x (element path i) signals)

  pub inspect_fields : Fields → EvidencePath → List RiskSignal → List RiskSignal
  inspect_fields end path signals = signals
  inspect_fields (entry key v fs) path signals =
      inspect_fields fs path
        (inspect_value v (field path key) (inspect_key key (field path key) signals))

unfoldable pub add_annotations : Option Annotations → List RiskSignal → List RiskSignal
add_annotations none signals = signals
add_annotations (some a) signals =
    let first =
      if a.destructive_hint
      then add_signal signals destructive (signal_points destructive) annotation none
      else signals in
    if a.open_world_hint
    then add_signal first open_world (signal_points open_world) annotation none
    else first

-- The map of signals when all detectors have run.
unfoldable pub collect_signals : RiskInput → List RiskSignal
collect_signals input = add_annotations input.annotations (
    inspect_fields input.arguments root
      (add_detected detectors input.tool_name (add_policy_tags input.policy_tags [])))

-- A stable sort by code.
unfoldable pub insert_signal : RiskSignal → List RiskSignal → List RiskSignal
insert_signal s [] = s ∷ []
insert_signal s (t ∷ ts) =
    if leb (tag_rank s.code) (tag_rank t.code) then s ∷ t ∷ ts else t ∷ insert_signal s ts

unfoldable pub sort_signals : List RiskSignal → List RiskSignal
unfolding insert_signal
sort_signals [] = []
sort_signals (s ∷ ss) = insert_signal s (sort_signals ss)

unfoldable pub sum_points : List RiskSignal → ℕ
sum_points [] = 0
sum_points (s ∷ ss) = s.points + sum_points ss

unfoldable pub band_for_score : ℕ → RiskBand
band_for_score score =
    if leb 80 score
    then critical
    else if leb 60 score
    then high
    else if leb 30 score
    then medium
    else low

abbrev pub base_score : List RiskTag → ℕ
base_score tags = if any (tag_eq local_read) tags then 10 else 25

unfoldable pub score_risk : RiskInput → RiskAssessment
unfolding collect_signals sort_signals sum_points band_for_score
score_risk input =
    let ordered = sort_signals (collect_signals input) in
    let score = min 100 (base_score input.policy_tags + sum_points ordered) in
    record { score = score; band = band_for_score score; signals = ordered }
