-- ===== src/Policy/Evaluator.antt =====
-- policy/evaluator.ts: the decision on a call, from the rule that wins and the risk score.
pub mod Safety
use agent_permission_guard.Base.{
  leb, if◌then◌else◌, Text, Ordering, Bool, true, false, ◌&&◌, Option, none, some, List, [], ◌∷◌,
}
use agent_permission_guard.Json.{Fields}
use agent_permission_guard.Risk.{RiskTag, tool_name, RiskAssessment, Annotations, RiskInput}
use agent_permission_guard.Risk.Score.{score_risk}
use agent_permission_guard.Policy.Schema.{Decision, allow, ask, PolicyRule, PolicyDocument}
use agent_permission_guard.Policy.Matcher.{MatchReason, PolicyMatch, match_policy}

pub record PolicyEvaluationInput : Type 0 where
  pub server_id : Text
  pub tool_name : Text
  pub arguments : Fields
  pub annotations : Option Annotations

pub data ReasonCode : Type 0 where
  of_match : MatchReason → ReasonCode
  risk_escalation : ReasonCode

pub record PolicyEvaluation : Type 0 where
  pub base_decision : Decision
  pub effective_decision : Decision
  pub matched_rule_id : Option Text
  pub reason_codes : List ReasonCode
  pub risk : RiskAssessment

pub is_allow : Decision → Bool
is_allow allow = true
is_allow _ = false

-- `match.rule?.risk_tags ?? []`.
abbrev pub tags_of : Option PolicyRule → List RiskTag
tags_of none = []
tags_of (some r) = r.risk_tags

abbrev pub id_of : Option PolicyRule → Option Text
id_of none = none
id_of (some r) = some r.id

abbrev pub risk_input : PolicyMatch → PolicyEvaluationInput → RiskInput
risk_input found input = record {
  tool_name = input.tool_name;
  arguments = input.arguments;
  policy_tags = tags_of found.rule;
  annotations = input.annotations;
}

pub evaluation_of : PolicyMatch → RiskAssessment → PolicyEvaluation
unfolding is_allow
evaluation_of found risk =
    let escalate = is_allow found.decision && leb 60 risk.score in
    record {
      base_decision = found.decision;
      effective_decision = if escalate then ask else found.decision;
      matched_rule_id = id_of found.rule;
      reason_codes = of_match found.reason ∷ (if escalate then risk_escalation ∷ [] else []);
      risk = risk;
    }

unfoldable pub evaluate_policy :
    (Text → Text → Ordering) → PolicyDocument → PolicyEvaluationInput → PolicyEvaluation
unfolding evaluation_of
evaluate_policy locale_compare policy input =
    let found = match_policy locale_compare policy input.server_id input.tool_name in
    evaluation_of found (score_risk (risk_input found input))
