-- ===== src/Policy/Matcher/Ranks.antt =====
-- The ranks of the matching rules of policy/matcher.ts, described without optional values and maxima.
use agent_permission_guard.Base.{
  ◌==◌, if◌then◌else◌, Bool-cases, any, In, Text, text_eq, ℕ, ◌+◌, ◌≤◌, max, ◌≡◌, refl, ◌⊎◌, inl,
  inr, Bool, true, ◌&&◌, ◌||◌, none, some, List, [], ◌∷◌, arith,
}
use agent_permission_guard.Policy.Schema.{PolicyRule}
use agent_permission_guard.Policy.Glob.{star, glob, match_specificity}
use agent_permission_guard.Policy.Matcher.{
  RankedRule, tool_specificities, maximum, rank_tools, rank_rule, rank_rules,
}

-- A pattern matches a name: it is the name, or it has a `*` and covers the name.
pub name_matches : Text → Text → Bool
name_matches p s = text_eq p s || (any (λ c. c == star) p && glob p s)

-- A rule matches a call: its server pattern and one of its tool patterns do.
unfoldable pub rule_matches : Text → Text → PolicyRule → Bool
unfolding name_matches
rule_matches server tool r = name_matches r.server server && any (λ p. name_matches p tool) r.tools

abbrev pub exact_or : Bool → ℕ
exact_or exact = if exact then 2 else 1

-- Two points for each part that the rule names exactly, one for each that it covers.
unfoldable pub specificity : Text → Text → PolicyRule → ℕ
specificity server tool r =
    exact_or (text_eq r.server server) + exact_or (any (λ p. text_eq p tool) r.tools)

abbrev pub ranked : Text → Text → PolicyRule → RankedRule
ranked server tool r = record { rule = r; specificity = specificity server tool r }

maximum-specificities :
    (n : ℕ) (ps : List Text) (tool : Text)
    → 1 ≤ n
    → n ≤ 2
    → maximum n (tool_specificities ps tool) ≡ (if any (λ p. text_eq p tool) ps then 2 else n)
unfolding maximum tool_specificities match_specificity
maximum-specificities n [] tool h k = refl
maximum-specificities n (p ∷ ps) tool h k = ground (
  arith,
  maximum-specificities n ps tool,
  maximum-specificities 2 ps tool,
  maximum-specificities (max n 1) ps tool,
  maximum-specificities (max n 2) ps tool,
)

rank_tools_lem :
    (r : PolicyRule) (n : ℕ) (ps : List Text) (tool : Text)
    → rank_tools r n (tool_specificities ps tool) ≡ (
        if any (λ p. name_matches p tool) ps
        then some (record { rule = r; specificity = n + exact_or (any (λ p. text_eq p tool) ps) })
        else none)
unfolding rank_tools tool_specificities match_specificity name_matches
rank_tools_lem r n [] tool = refl
rank_tools_lem r n (p ∷ ps) tool = ground (
  arith,
  rank_tools_lem r n ps tool,
  maximum-specificities 2 ps tool,
  maximum-specificities 1 ps tool,
)

pub rank_rule_lem :
    (server tool : Text) (r : PolicyRule)
    → rank_rule server tool r
      ≡ (if rule_matches server tool r then some (ranked server tool r) else none)
unfolding rank_rule rule_matches specificity match_specificity name_matches
rank_rule_lem server tool r =
    ground (arith, rank_tools_lem r 1 r.tools tool, rank_tools_lem r 2 r.tools tool)

rank_rules-cons :
    (server tool : Text) (r : PolicyRule) (rs : List PolicyRule)
    → rank_rules server tool (r ∷ rs) ≡ (
        if rule_matches server tool r
        then ranked server tool r ∷ rank_rules server tool rs
        else rank_rules server tool rs)
unfolding rank_rules
rank_rules-cons server tool r rs = ground (arith, rank_rule_lem server tool r)

-- Where a rank comes from.
abbrev pub Origin : Text → Text → List PolicyRule → RankedRule → Type 0
Origin server tool rs k =
    (r : PolicyRule) × In r rs × (rule_matches server tool r ≡ true) × (k ≡ ranked server tool r)

pub mem-rank_rules :
    (server tool : Text) (rs : List PolicyRule) (k : RankedRule)
    → In k (rank_rules server tool rs)
    → Origin server tool rs k
unfolding rank_rules
mem-rank_rules server tool [] k m = absurd m
mem-rank_rules server tool (r ∷ rs) k m = elim (Bool-cases (rule_matches server tool r)) [
  | inl e ↦
      first e (rw (rank_rules-cons server tool r rs, e) at m) (mem-rank_rules server tool rs k)
  | inr e ↦ later (mem-rank_rules server tool rs k (rw (rank_rules-cons server tool r rs, e) at m))
]
  where
    later : Origin server tool rs k → Origin server tool (r ∷ rs) k
    later (s, n, h, q) = (s, inr n, h, q)

    first :
        rule_matches server tool r ≡ true
        → ((k ≡ ranked server tool r) ⊎ In k (rank_rules server tool rs))
        → (In k (rank_rules server tool rs) → Origin server tool rs k)
        → Origin server tool (r ∷ rs) k
    first e (inl q) ih = (r, inl refl, e, q)
    first e (inr n) ih = later (ih n)

pub rank_rules-mem :
    (server tool : Text) (rs : List PolicyRule) (r : PolicyRule)
    → In r rs
    → rule_matches server tool r ≡ true
    → In (ranked server tool r) (rank_rules server tool rs)
unfolding rank_rules
rank_rules-mem server tool [] r m h = absurd m
rank_rules-mem server tool (s ∷ rs) r m h =
    ground (arith, rank_rule_lem server tool s, rank_rules-mem server tool rs r)
