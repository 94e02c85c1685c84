-- ===== src/Policy/Evaluator/Safety.antt =====
-- When `evaluatePolicy` lets a call pass without a human, and when it refuses one.
use agent_permission_guard.Base.{
  Option-cases, In, All-In, Text, compare_ℤ, IsOrder, ◌+◌, ◌≤◌, ◌<◌, Ordering, ◌≡◌, sym, ap, ◌∙◌,
  subst, ◌≢◌, ◌↔◌, ◌⊎◌, inl, inr, true, false, false≢true, none, some, arith,
}
use agent_permission_guard.Risk.{RiskAssessment, RiskInput}
use agent_permission_guard.Risk.Score.{score_risk, base_score}
use agent_permission_guard.Risk.Score.Raised.{raised}
use agent_permission_guard.Risk.Score.Points.{points_of, score_risk-score}
use agent_permission_guard.Policy.Schema.{allow, deny, PolicyRule, PolicyDocument}
use agent_permission_guard.Policy.Matcher.{PolicyMatch, match_policy}
use agent_permission_guard.Policy.Matcher.Ranks.{rule_matches, specificity}
use agent_permission_guard.Policy.Matcher.Winner.{
  compare_rules, IsWinner, match_policy-IsWinner, match_policy-none_iff, match_of,
  match_policy-rule,
}
use agent_permission_guard.Policy.Evaluator.{
  PolicyEvaluationInput, is_allow, tags_of, risk_input, evaluation_of, evaluate_policy,
}

module _ (locale_compare : Text → Text → Ordering) (o : IsOrder locale_compare) where
  allow_of_evaluation :
      (found : PolicyMatch) (risk : RiskAssessment)
      → (evaluation_of found risk).effective_decision ≡ allow
      → (found.decision ≡ allow) × (risk.score < 60)
  unfolding evaluation_of is_allow
  allow_of_evaluation found risk h = ground arith

  deny_of_evaluation :
      (found : PolicyMatch) (risk : RiskAssessment)
      → (evaluation_of found risk).effective_decision ≡ deny ↔ (found.decision ≡ deny)
  unfolding evaluation_of is_allow
  deny_of_evaluation found risk = ground arith

  -- What a rule adds to the score of a call.
  abbrev pub input_under : PolicyRule → PolicyEvaluationInput → RiskInput
  input_under w input = record {
    tool_name = input.tool_name;
    arguments = input.arguments;
    policy_tags = w.risk_tags;
    annotations = input.annotations;
  }

  -- A call is allowed without a human only if an allow rule of the document matches it and comes
  -- before or level with every other matching rule, and if the base score of that rule's tags and
  -- the points of all signals that the call raises stay below 60.
  pub evaluate_policy-allow :
      (policy : PolicyDocument) (input : PolicyEvaluationInput)
      → (evaluate_policy locale_compare policy input).effective_decision ≡ allow
      → (w : PolicyRule) × IsWinner locale_compare policy input.server_id input.tool_name w
        × (w.decision ≡ allow)
        × (base_score w.risk_tags + points_of (raised (input_under w input)) < 60)
  unfolding evaluate_policy
  evaluate_policy-allow policy input h =
      allowed (Option-cases found.rule)
        (allow_of_evaluation found (score_risk (risk_input found input)) h)
    where
      found : PolicyMatch
      found = match_policy locale_compare policy input.server_id input.tool_name

      allowed :
          (found.rule ≡ none) ⊎ ((w : PolicyRule) × (found.rule ≡ some w))
          → ((found.decision ≡ allow) × ((score_risk (risk_input found input)).score < 60))
          → (w : PolicyRule) × IsWinner locale_compare policy input.server_id input.tool_name w
            × (w.decision ≡ allow)
            × (base_score w.risk_tags + points_of (raised (input_under w input)) < 60)
      allowed (inl none_found) (a, low_score) = absurd (unmatched a)
        where
          unmatched : found.decision ≡ allow → ⊥
          unmatched a = cc (
            match_policy-rule locale_compare policy input.server_id input.tool_name,
            ap (match_of locale_compare) none_found,
          )
      allowed (inr (w, is_w)) (a, low_score) =
          let (won, same_decision) =
            match_policy-IsWinner locale_compare o policy input.server_id input.tool_name w is_w in
          let below : (score_risk (input_under w input)).score < 60 =
            subst
              (λ x.
                (score_risk (record (input_under w input) { policy_tags = tags_of x })).score < 60)
              is_w low_score in
          (w, won, sym same_decision ∙ a, omega (arith, score_risk-score (input_under w input)))

  -- A deny rule that matches is obeyed, if each matching rule has a lower priority, or the same
  -- priority and no more exact patterns: whatever those rules decide and however low the risk.
  pub evaluate_policy-deny :
      (policy : PolicyDocument) (input : PolicyEvaluationInput) (d : PolicyRule)
      → In d policy.rules
      → rule_matches input.server_id input.tool_name d ≡ true
      → d.decision ≡ deny
      → ((r : PolicyRule)
          → In r policy.rules
          → rule_matches input.server_id input.tool_name r ≡ true
          → (compare_ℤ r.priority d.priority ≡ Ordering.lt)
            ⊎ ((compare_ℤ r.priority d.priority ≡ Ordering.eq)
                × (specificity input.server_id input.tool_name r
                    ≤ specificity input.server_id input.tool_name d)))
      → (evaluate_policy locale_compare policy input).effective_decision ≡ deny
  unfolding evaluate_policy compare_rules
  evaluate_policy-deny policy input d m h e top =
      (deny_of_evaluation found (score_risk (risk_input found input))).1
        (decided (Option-cases found.rule))
    where
      found : PolicyMatch
      found = match_policy locale_compare policy input.server_id input.tool_name

      ties :
          (w : PolicyRule)
          → compare_rules locale_compare input.server_id input.tool_name w d ≢ Ordering.gt
          → ((compare_ℤ w.priority d.priority ≡ Ordering.lt)
              ⊎ ((compare_ℤ w.priority d.priority ≡ Ordering.eq)
                  × (specificity input.server_id input.tool_name w
                      ≤ specificity input.server_id input.tool_name d)))
          → w.decision ≡ deny
      ties w first below = ground arith

      decided :
          (found.rule ≡ none) ⊎ ((w : PolicyRule) × (found.rule ≡ some w)) → found.decision ≡ deny
      decided (inl none_found) =
          let missed =
            All-In (λ r. rule_matches input.server_id input.tool_name r ≡ false) policy.rules
              ((match_policy-none_iff locale_compare policy input.server_id input.tool_name).0
                none_found)
              m in
          absurd (false≢true (sym missed ∙ h))
      decided (inr (w, is_w)) =
          let (won, same_decision) =
            match_policy-IsWinner locale_compare o policy input.server_id input.tool_name w is_w in
          same_decision ∙ ties w (won.best d m h) (top w won.listed won.matching)
