-- ===== src/Policy/Matcher.antt =====
-- policy/matcher.ts: the rules that match a call, in the order of their rank, and the first of them.
-- `localeCompare` depends on the host's locale: it is the section's parameter.
pub mod Ranks
pub mod Winner
pub mod Reorder
use agent_permission_guard.Base.{
  Text, compare_ℤ, then_by, sort_by, ℕ, ◌+◌, max, compare, Ordering, Option, none, some, List, [],
  ◌∷◌,
}
use agent_permission_guard.Policy.Schema.{Decision, allow, ask, deny, PolicyRule, PolicyDocument}
use agent_permission_guard.Policy.Glob.{match_specificity}

pub data MatchReason : Type 0 where
  matched_rule default_ask : MatchReason

pub record PolicyMatch : Type 0 where
  pub decision : Decision
  pub rule : Option PolicyRule
  pub reason : MatchReason

pub record RankedRule : Type 0 where
  pub rule : PolicyRule
  pub specificity : ℕ

-- `DECISION_RANK`.
abbrev pub decision_rank : Decision → ℕ
decision_rank allow = 0
decision_rank ask = 1
decision_rank deny = 2

pub tool_specificities : List Text → Text → List ℕ
tool_specificities [] tool = []
tool_specificities (p ∷ ps) tool = elim (match_specificity p tool) [
  | none ↦ tool_specificities ps tool
  | some n ↦ n ∷ tool_specificities ps tool
]

-- `Math.max` of a list that is not empty.
pub maximum : ℕ → List ℕ → ℕ
maximum n [] = n
maximum n (m ∷ ms) = maximum (max n m) ms

pub rank_tools : PolicyRule → ℕ → List ℕ → Option RankedRule
rank_tools r n [] = none
rank_tools r n (m ∷ ms) = some (record { rule = r; specificity = n + maximum m ms })

-- The function that `flatMap` runs on a rule.
pub rank_rule : Text → Text → PolicyRule → Option RankedRule
unfolding rank_tools tool_specificities maximum
rank_rule server tool r = elim (match_specificity r.server server) [
  | none ↦ none
  | some n ↦ rank_tools r n (tool_specificities r.tools tool)
]

pub rank_rules : Text → Text → List PolicyRule → List RankedRule
unfolding rank_rule
rank_rules server tool [] = []
rank_rules server tool (r ∷ rs) = elim (rank_rule server tool r) [
  | none ↦ rank_rules server tool rs
  | some k ↦ k ∷ rank_rules server tool rs
]

pub to_match : List RankedRule → PolicyMatch
to_match [] = record { decision = ask; rule = none; reason = default_ask }
to_match (w ∷ _) = record { decision = w.rule.decision; rule = some w.rule; reason = matched_rule }

module _ (locale_compare : Text → Text → Ordering) where
  unfoldable pub compare_ranked_rules : RankedRule → RankedRule → Ordering
  compare_ranked_rules left right = then_by (compare_ℤ right.rule.priority left.rule.priority) (
      then_by (compare right.specificity left.specificity) (
        then_by (compare (decision_rank right.rule.decision) (decision_rank left.rule.decision))
          (locale_compare left.rule.id right.rule.id)))

  unfoldable pub match_policy : PolicyDocument → Text → Text → PolicyMatch
  unfolding rank_rules to_match compare_ranked_rules sort_by
  match_policy policy server tool =
      to_match (sort_by compare_ranked_rules (rank_rules server tool policy.rules))
