-- ===== src/Policy/Matcher/Reorder.antt =====
-- The order of the rules in a document of policy/schema.ts has no effect on `matchPolicy`.
use agent_permission_guard.Base.{
  Option-cases, In, All-In, Text, IsOrder, Ordering, ◌≡◌, sym, ap, ◌∙◌, ◌↔◌, ◌⊎◌, inl, inr, true,
  false, false≢true, none, some, arith,
}
use agent_permission_guard.Policy.Schema.{
  PolicyRule, PolicyDocument, is_rule_id, is_valid_document, valid-HasDistinctIds, valid-rule_id,
}
use agent_permission_guard.Policy.Matcher.{match_policy}
use agent_permission_guard.Policy.Matcher.Ranks.{rule_matches}
use agent_permission_guard.Policy.Matcher.Winner.{
  compare_rules, IsWinner, match_policy-IsWinner, match_policy-none_iff, match_of,
  match_policy-rule,
}

-- What a locale may lack: it tells the ids apart that the schema allows. (Some skip punctuation.)
abbrev pub SeparatesIds : (Text → Text → Ordering) → Type 0
SeparatesIds locale_compare =
    (a b : Text)
    → is_rule_id a ≡ true
    → is_rule_id b ≡ true
    → locale_compare a b ≡ Ordering.eq
    → a ≡ b

module _ (locale_compare : Text → Text → Ordering) where
  module _ (o : IsOrder locale_compare) (sep : SeparatesIds locale_compare) where
    winner_unique :
        (p q : PolicyDocument) (server tool : Text) (v w : PolicyRule)
        → is_valid_document p ≡ true
        → ((r : PolicyRule) → In r p.rules ↔ In r q.rules)
        → IsWinner locale_compare p server tool v
        → IsWinner locale_compare q server tool w
        → v ≡ w
    unfolding compare_rules
    winner_unique p q server tool v w valid same_rules a b =
        let w_in_p = (same_rules w).1 b.listed in
        let v_in_q = (same_rules v).0 a.listed in
        let forth = a.best w w_in_p b.matching in
        let back = b.best v v_in_q a.matching in
        let level : locale_compare v.id w.id ≡ Ordering.eq = ground (arith, o.swaps v.id w.id) in
        valid-HasDistinctIds p valid v w a.listed w_in_p
          (sep v.id w.id (valid-rule_id p v valid a.listed) (valid-rule_id p w valid w_in_p) level)

    -- The decision does not depend on the order in which a valid document lists its rules: two
    -- documents with the same rules give the same match, where the locale tells the ids apart.
    pub match_policy_reorder :
        (p q : PolicyDocument) (server tool : Text)
        → is_valid_document p ≡ true
        → ((r : PolicyRule) → In r p.rules ↔ In r q.rules)
        → match_policy locale_compare p server tool ≡ match_policy locale_compare q server tool
    match_policy_reorder p q server tool valid same_rules =
        match_policy-rule locale_compare p server tool
        ∙ ap (match_of locale_compare) rules_agree
        ∙ sym (match_policy-rule locale_compare q server tool)
      where
        none_left :
            (a b : PolicyDocument) (w : PolicyRule)
            → ((r : PolicyRule) → In r b.rules → In r a.rules)
            → (match_policy locale_compare a server tool).rule ≡ none
            → ¬ IsWinner locale_compare b server tool w
        none_left a b w sub e won =
            let missed =
              All-In (λ r. rule_matches server tool r ≡ false) a.rules
                ((match_policy-none_iff locale_compare a server tool).0 e) (sub w won.listed) in
            false≢true (sym missed ∙ won.matching)

        wins :
            (a : PolicyDocument) (w : PolicyRule)
            → (match_policy locale_compare a server tool).rule ≡ some w
            → IsWinner locale_compare a server tool w
        wins a w e = (match_policy-IsWinner locale_compare o a server tool w e).0

        agree :
            ((match_policy locale_compare p server tool).rule ≡ none)
              ⊎ ((v : PolicyRule) × ((match_policy locale_compare p server tool).rule ≡ some v))
            → ((match_policy locale_compare q server tool).rule ≡ none)
              ⊎ ((w : PolicyRule) × ((match_policy locale_compare q server tool).rule ≡ some w))
            → (match_policy locale_compare p server tool).rule
              ≡ (match_policy locale_compare q server tool).rule
        agree (inl a) (inl b) = a ∙ sym b
        agree (inl a) (inr (w, b)) = absurd (none_left p q w (λ r. (same_rules r).1) a (wins q w b))
        agree (inr (v, a)) (inl b) = absurd (none_left q p v (λ r. (same_rules r).0) b (wins p v a))
        agree (inr (v, a)) (inr (w, b)) =
            a
            ∙ ap some (winner_unique p q server tool v w valid same_rules (wins p v a) (wins q w b))
            ∙ sym b

        rules_agree :
            (match_policy locale_compare p server tool).rule
            ≡ (match_policy locale_compare q server tool).rule
        rules_agree =
            agree (Option-cases (match_policy locale_compare p server tool).rule)
              (Option-cases (match_policy locale_compare q server tool).rule)
