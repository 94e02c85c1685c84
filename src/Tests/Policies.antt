-- ===== src/Tests/Policies.antt =====
-- The policy, the patterns and the scorer on concrete inputs.
use agent_permission_guard.Base.{
  text_compare, text_compare-IsOrder, All, In, Text, codes, text_eq, text_mem, pos, compare_ℤ, ◌+◌,
  ◌≤◌, ◌<◌, min, Ordering, ◌≡◌, refl, ◌↔◌, ◌⊎◌, inl, inr, true, false, none, [], ◌∷◌, arith,
}
use agent_permission_guard.Json.{end, entry, text}
use agent_permission_guard.Risk.{tag_eq, has_word, RiskInput, local_read, destructive}
use agent_permission_guard.Risk.Score.{
  add_annotations, add_policy_tags, add_detected, inspect_fields, base_score, score_risk,
}
use agent_permission_guard.Risk.Score.Raised.{raised}
use agent_permission_guard.Risk.Score.Points.{points_of, score_risk-score}
use agent_permission_guard.Policy.Schema.{
  is_valid_rule, is_valid_document, PolicyDocument, PolicyRule, Decision,
}
use agent_permission_guard.Policy.Glob.{match_specificity, glob, Covers, glob_iff}
use agent_permission_guard.Policy.Matcher.{match_policy}
use agent_permission_guard.Policy.Matcher.Ranks.{rule_matches, specificity}
use agent_permission_guard.Policy.Matcher.Winner.{
  IsWinner, match_policy-IsWinner, match_policy-none_iff,
}
use agent_permission_guard.Policy.Matcher.Reorder.{match_policy_reorder}
use agent_permission_guard.Policy.Evaluator.{PolicyEvaluationInput, evaluate_policy}
use agent_permission_guard.Policy.Evaluator.Safety.{
  input_under, evaluate_policy-allow, evaluate_policy-deny,
}
use agent_permission_guard.Tests.Orders.{text_compare-SeparatesIds}

abbrev read_rule : PolicyRule
read_rule = record {
  id = codes "read";
  priority = pos 1;
  server = codes "fs";
  tools = codes "read_*" ∷ [];
  decision = Decision.allow;
  risk_tags = local_read ∷ [];
}

abbrev delete_rule : PolicyRule
delete_rule = record {
  id = codes "delete";
  priority = pos 5;
  server = codes "fs";
  tools = codes "delete_file" ∷ [];
  decision = Decision.deny;
  risk_tags = destructive ∷ [];
}

abbrev two_rules : PolicyDocument
two_rules = record {
  approval_ttl_seconds = 60;
  tool_timeout_seconds = 60;
  rules = read_rule ∷ delete_rule ∷ [];
}

abbrev two_rules_turned : PolicyDocument
two_rules_turned = record two_rules { rules = delete_rule ∷ read_rule ∷ [] }

abbrev call_of : Text → PolicyEvaluationInput
call_of tool = record {
  server_id = codes "fs";
  tool_name = tool;
  arguments = end;
  annotations = none;
}

glob_iff_example : (glob (codes "a*c") (codes "abbc") ≡ true) ↔ Covers (codes "a*c") (codes "abbc")
glob_iff_example = glob_iff (codes "a*c") (codes "abbc")

match_policy-IsWinner_example :
    IsWinner text_compare two_rules (codes "fs") (codes "read_file") read_rule
    × ((match_policy text_compare two_rules (codes "fs") (codes "read_file")).decision
        ≡ read_rule.decision)
unfolding match_policy match_specificity text_eq
match_policy-IsWinner_example =
    match_policy-IsWinner text_compare text_compare-IsOrder two_rules (codes "fs")
      (codes "read_file") read_rule refl

match_policy-none_iff_example :
    ((match_policy text_compare two_rules (codes "db") (codes "x")).rule ≡ none)
    ↔ All (λ r. rule_matches (codes "db") (codes "x") r ≡ false) (read_rule ∷ delete_rule ∷ [])
match_policy-none_iff_example =
    match_policy-none_iff text_compare two_rules (codes "db") (codes "x")

turn : {r : PolicyRule} {a b : PolicyRule} → In r (a ∷ b ∷ []) → In r (b ∷ a ∷ [])
turn (inl e) = inr (inl e)
turn (inr (inl e)) = inl e
turn (inr (inr m)) = absurd m

match_policy_reorder_example :
    match_policy text_compare two_rules (codes "fs") (codes "delete_file")
    ≡ match_policy text_compare two_rules_turned (codes "fs") (codes "delete_file")
unfolding is_valid_document is_valid_rule text_mem text_eq
match_policy_reorder_example =
    match_policy_reorder text_compare text_compare-IsOrder text_compare-SeparatesIds two_rules
      two_rules_turned (codes "fs") (codes "delete_file") refl (λ r. (turn, turn))

evaluate_policy-allow_example :
    (w : PolicyRule) × IsWinner text_compare two_rules (codes "fs") (codes "read_file") w
    × (w.decision ≡ Decision.allow)
    × (base_score w.risk_tags
          + points_of (
              raised
                (input_under text_compare text_compare-IsOrder w (call_of (codes "read_file"))))
        < 60)
unfolding evaluate_policy match_policy match_specificity text_eq score_risk tag_eq add_annotations
    inspect_fields add_detected has_word add_policy_tags
evaluate_policy-allow_example =
    evaluate_policy-allow text_compare text_compare-IsOrder two_rules (call_of (codes "read_file"))
      refl

only_delete :
    (r : PolicyRule)
    → In r (read_rule ∷ delete_rule ∷ [])
    → rule_matches (codes "fs") (codes "delete_file") r ≡ true
    → (compare_ℤ r.priority (pos 5) ≡ Ordering.lt)
      ⊎ ((compare_ℤ r.priority (pos 5) ≡ Ordering.eq)
          × (specificity (codes "fs") (codes "delete_file") r
              ≤ specificity (codes "fs") (codes "delete_file") delete_rule))
only_delete r (inl e) h = inl (rw e)
only_delete r (inr (inl e)) h = inr (rw e, rw e (omega arith))
only_delete r (inr (inr m)) h = absurd m

evaluate_policy-deny_example :
    (evaluate_policy text_compare two_rules (call_of (codes "delete_file"))).effective_decision
    ≡ Decision.deny
unfolding rule_matches text_eq
evaluate_policy-deny_example =
    evaluate_policy-deny text_compare text_compare-IsOrder two_rules (call_of (codes "delete_file"))
      delete_rule (inr (inl refl)) refl refl only_delete

abbrev reads : RiskInput
reads = record {
  tool_name = codes "read_file";
  arguments = end;
  policy_tags = [];
  annotations = none;
}

abbrev deletes : RiskInput
deletes = record {
  tool_name = codes "delete_file";
  arguments = entry (codes "path") (text (codes "/tmp/x")) end;
  policy_tags = [];
  annotations = none;
}

score_risk-score_example :
    (score_risk deletes).score ≡ min 100 (base_score [] + points_of (raised deletes))
score_risk-score_example = score_risk-score deletes
