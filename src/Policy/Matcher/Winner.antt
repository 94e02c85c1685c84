-- ===== src/Policy/Matcher/Winner.antt =====
-- Which rule `matchPolicy` of policy/matcher.ts returns.
use agent_permission_guard.Base.{
  Bool-cases, All, In, All-In, In-All, Text, compare_ℤ, then_by, IsOrder, then_by-IsOrder,
  reverse-IsOrder, sort_by, IsSorted, mem-sort, sort-IsSorted, compare-IsOrder, compare_ℤ-IsOrder,
  key-IsOrder, compare, Ordering, ◌≡◌, refl, sym, ap, ◌∙◌, subst, ◌≢◌, ◌↔◌, inl, inr, true, false,
  Option, none, some, List, [], ◌∷◌, arith,
}
use agent_permission_guard.Policy.Schema.{ask, PolicyRule, PolicyDocument}
use agent_permission_guard.Policy.Matcher.{
  matched_rule, default_ask, PolicyMatch, RankedRule, decision_rank, rank_rules, to_match,
  compare_ranked_rules, match_policy,
}
use agent_permission_guard.Policy.Matcher.Ranks.{
  rule_matches, specificity, ranked, rank_rule_lem, mem-rank_rules, rank_rules-mem,
}

module _ (locale_compare : Text → Text → Ordering) where
  -- The order of two matching rules, by what `compareRankedRules` reads of them.
  unfoldable pub compare_rules : Text → Text → PolicyRule → PolicyRule → Ordering
  compare_rules server tool left right = then_by (compare_ℤ right.priority left.priority) (
      then_by (compare (specificity server tool right) (specificity server tool left)) (
        then_by (compare (decision_rank right.decision) (decision_rank left.decision))
          (locale_compare left.id right.id)))

  -- A rule of the document that matches, and that no other matching rule precedes.
  pub record IsWinner (policy : PolicyDocument) (server tool : Text) (w : PolicyRule) : Type 0 where
    pub listed : In w policy.rules
    pub matching : rule_matches server tool w ≡ true
    pub best :
        (r : PolicyRule)
        → In r policy.rules
        → rule_matches server tool r ≡ true
        → compare_rules server tool w r ≢ Ordering.gt

  compare_ranked-IsOrder : IsOrder locale_compare → IsOrder (compare_ranked_rules locale_compare)
  unfolding compare_ranked_rules
  compare_ranked-IsOrder o =
      then_by-IsOrder _ _
        (reverse-IsOrder _
          (key-IsOrder (λ (k : RankedRule). k.rule.priority) compare_ℤ compare_ℤ-IsOrder))
        (then_by-IsOrder _ _
          (reverse-IsOrder _
            (key-IsOrder (λ (k : RankedRule). k.specificity) compare compare-IsOrder))
          (then_by-IsOrder _ _
            (reverse-IsOrder _ (
              key-IsOrder (λ (k : RankedRule). decision_rank k.rule.decision) compare
                compare-IsOrder))
            (key-IsOrder (λ (k : RankedRule). k.rule.id) locale_compare o)))

  head-IsWinner :
      IsOrder locale_compare
      → (policy : PolicyDocument) (server tool : Text) (r : PolicyRule) (ks : List RankedRule)
      → IsSorted (compare_ranked_rules locale_compare) (ranked server tool r ∷ ks)
      → ((j : RankedRule)
          → In j (rank_rules server tool policy.rules)
          → In j (ranked server tool r ∷ ks))
      → In r policy.rules
      → rule_matches server tool r ≡ true
      → IsWinner policy server tool r
  unfolding compare_rules compare_ranked_rules
  head-IsWinner o policy server tool r ks sorted kept m h = record {
    listed = m;
    matching = h;
    best = λ s n g.
        before s (kept (ranked server tool s) (rank_rules-mem server tool policy.rules s n g));
  }
    where
      before :
          (s : PolicyRule)
          → In (ranked server tool s) (ranked server tool r ∷ ks)
          → compare_rules server tool r s ≢ Ordering.gt
      before s (inl e) =
          let same_rule : s ≡ r = ap (λ (k : RankedRule). k.rule) e in
          subst (λ x. compare_rules server tool r x ≢ Ordering.gt) (sym same_rule)
            (ground (arith, o.swaps r.id r.id))
      before s (inr n) =
          All-In (λ j. compare_ranked_rules locale_compare (ranked server tool r) j ≢ Ordering.gt)
            ks sorted.0 n

  -- What is read off the sorted list.
  abbrev Wins : PolicyDocument → Text → Text → PolicyRule → PolicyMatch → Type 0
  Wins policy server tool w found = IsWinner policy server tool w × (found.decision ≡ w.decision)

  to_match-IsWinner :
      IsOrder locale_compare
      → (policy : PolicyDocument) (server tool : Text) (w : PolicyRule) (ks : List RankedRule)
      → IsSorted (compare_ranked_rules locale_compare) ks
      → ((j : RankedRule) → In j ks ↔ In j (rank_rules server tool policy.rules))
      → (to_match ks).rule ≡ some w
      → Wins policy server tool w (to_match ks)
  unfolding to_match
  to_match-IsWinner o policy server tool w [] sorted kept e = cc
  to_match-IsWinner o policy server tool w (k ∷ ks) sorted kept e =
      let (r, m, h, q) = mem-rank_rules server tool policy.rules k ((kept k).0 (inl refl)) in
      let won =
        head-IsWinner o policy server tool r ks
          (subst (λ j. IsSorted (compare_ranked_rules locale_compare) (j ∷ ks)) q sorted)
          (subst
            (λ i. (j : RankedRule) → In j (rank_rules server tool policy.rules) → In j (i ∷ ks)) q
            (λ j. (kept j).1))
          m h in
      let chosen : k.rule ≡ w = cc in
      let found : r ≡ w = sym (ap (λ (j : RankedRule). j.rule) q) ∙ chosen in
      (subst (IsWinner policy server tool) found won, ap (λ (x : PolicyRule). x.decision) chosen)

  -- The rule that is returned is listed, matches the call, and comes before or level with every
  -- other matching rule; its decision is the decision returned.
  pub match_policy-IsWinner :
      IsOrder locale_compare
      → (policy : PolicyDocument) (server tool : Text) (w : PolicyRule)
      → (match_policy locale_compare policy server tool).rule ≡ some w
      → IsWinner policy server tool w
        × ((match_policy locale_compare policy server tool).decision ≡ w.decision)
  unfolding match_policy
  match_policy-IsWinner o policy server tool w e =
      to_match-IsWinner o policy server tool w _
        (sort-IsSorted _ (compare_ranked-IsOrder o) (rank_rules server tool policy.rules))
        (λ j. mem-sort _ j (rank_rules server tool policy.rules)) e

  no_first : (ks : List RankedRule) (k : RankedRule) → (to_match ks).rule ≡ none → ¬ In k ks
  unfolding to_match
  no_first [] k e m = m
  no_first (_ ∷ _) k e m = cc

  unranked :
      (server tool : Text) (rs : List PolicyRule)
      → All (λ r. rule_matches server tool r ≡ false) rs
      → rank_rules server tool rs ≡ []
  unfolding rank_rules
  unranked server tool [] h = refl
  unranked server tool (r ∷ rs) h =
      ground (arith, rank_rule_lem server tool r, unranked server tool rs)

  -- No rule is returned exactly when no rule of the document matches.
  pub match_policy-none_iff :
      (policy : PolicyDocument) (server tool : Text)
      → ((match_policy locale_compare policy server tool).rule ≡ none)
        ↔ All (λ r. rule_matches server tool r ≡ false) policy.rules
  unfolding match_policy to_match sort_by
  match_policy-none_iff policy server tool = (
    λ e. In-All _ policy.rules (λ r m. unmatched r m e),
    λ h. rw (unranked server tool policy.rules h),
  )
    where
      unmatched :
          (r : PolicyRule)
          → In r policy.rules
          → (match_policy locale_compare policy server tool).rule ≡ none
          → rule_matches server tool r ≡ false
      unmatched r m e = elim (Bool-cases (rule_matches server tool r)) [
        | inl h ↦ absurd (
            no_first _ (ranked server tool r) e (
              (mem-sort _ (ranked server tool r) (rank_rules server tool policy.rules)).1
                (rank_rules-mem server tool policy.rules r m h)))
        | inr h ↦ h
      ]

  -- A match is determined by its rule.
  abbrev pub match_of : Option PolicyRule → PolicyMatch
  match_of none = record { decision = ask; rule = none; reason = default_ask }
  match_of (some w) = record { decision = w.decision; rule = some w; reason = matched_rule }

  pub match_policy-rule :
      (policy : PolicyDocument) (server tool : Text)
      → match_policy locale_compare policy server tool
        ≡ match_of (match_policy locale_compare policy server tool).rule
  unfolding match_policy
  match_policy-rule policy server tool =
      of_list (sort_by (compare_ranked_rules locale_compare) (rank_rules server tool policy.rules))
    where
      of_list : (ks : List RankedRule) → to_match ks ≡ match_of (to_match ks).rule
      of_list [] = unfold to_match in refl
      of_list (k ∷ ks) = unfold to_match in refl
