-- ===== src/Policy/Schema.antt =====
-- policy/schema.ts: the policy document, and the checks that the schema makes of a parsed one.
use agent_permission_guard.Base.{
  leb, ◌==◌, if◌then◌else◌, length, all, In, all-In, Text, text_eq_iff, text_mem, ℤ, ℕ, ◌≡◌, sym,
  ap, ◌∙◌, subst, inl, inr, Bool, true, false, ◌&&◌, ◌||◌, List, [], ◌∷◌, arith,
}
use agent_permission_guard.Risk.{RiskTag}

pub data Decision : Type 0 where
  allow ask deny : Decision

pub record PolicyRule : Type 0 where
  pub id : Text
  pub priority : ℤ
  pub server : Text
  pub tools : List Text
  pub decision : Decision
  pub risk_tags : List RiskTag

pub record PolicyDocument : Type 0 where
  pub approval_ttl_seconds : ℕ
  pub tool_timeout_seconds : ℕ
  pub rules : List PolicyRule

is_id_start : ℕ → Bool
is_id_start c = (leb b'a' c && leb c b'z') || (leb b'0' c && leb c b'9')

is_id_char : ℕ → Bool
unfolding is_id_start
is_id_char c = is_id_start c || c == b'.' || c == b'_' || c == b'-'

-- `/^[a-z0-9][a-z0-9._-]*$/`.
unfoldable pub is_rule_id : Text → Bool
unfolding is_id_char
is_rule_id [] = false
is_rule_id (c ∷ s) = is_id_start c && all is_id_char s

-- `z.string().min(1).max(256)`.
is_name : Text → Bool
is_name s = leb 1 (length s) && leb (length s) 256

-- `PolicyRuleSchema`, with its `MatchSchema`.
unfoldable pub is_valid_rule : PolicyRule → Bool
unfolding is_name is_rule_id
is_valid_rule r =
    is_rule_id r.id
    && is_name r.server
    && leb 1 (length r.tools)
    && leb (length r.tools) 256
    && all is_name r.tools

-- The loop of `superRefine`: the ids that were seen before.
pub duplicate_ids : List Text → List PolicyRule → List Text
duplicate_ids seen [] = []
duplicate_ids seen (r ∷ rs) =
    let rest = duplicate_ids (r.id ∷ seen) rs in if text_mem r.id seen then r.id ∷ rest else rest

is_seconds : ℕ → Bool
is_seconds n = leb 1 n && leb n 3600

pub is_empty {ℓ} : {A : Type ℓ} → List A → Bool
is_empty [] = true
is_empty (_ ∷ _) = false

-- `PolicyDocumentSchema`, on a document of the right shape.
unfoldable pub is_valid_document : PolicyDocument → Bool
unfolding is_seconds is_empty duplicate_ids
is_valid_document p =
    is_seconds p.approval_ttl_seconds
    && is_seconds p.tool_timeout_seconds
    && leb (length p.rules) 1000
    && all is_valid_rule p.rules
    && is_empty (duplicate_ids [] p.rules)

mem-text_mem : (s : Text) (seen : List Text) → text_mem s seen ≡ false → ¬ In s seen
unfolding text_mem
mem-text_mem s [] h m = m
mem-text_mem s (t ∷ seen) h m = ground (arith, text_eq_iff s t, mem-text_mem s seen)

-- Rules with one id are one rule.
abbrev pub HasDistinctIds : List PolicyRule → Type 0
HasDistinctIds rules = (r s : PolicyRule) → In r rules → In s rules → r.id ≡ s.id → r ≡ s

unseen_of_empty :
    (seen : List Text) (rules : List PolicyRule)
    → duplicate_ids seen rules ≡ []
    → (r : PolicyRule) → In r rules
    → ¬ In r.id seen
unfolding duplicate_ids
unseen_of_empty seen [] h r m k = m
unseen_of_empty seen (x ∷ rules) h r (inl e) k =
    mem-text_mem x.id seen (ground arith) (subst (λ (y : PolicyRule). In y.id seen) e k)
unseen_of_empty seen (x ∷ rules) h r (inr m) k =
    unseen_of_empty (x.id ∷ seen) rules (ground arith) r m (inr k)

distinct_of_empty :
    (seen : List Text) (rules : List PolicyRule)
    → duplicate_ids seen rules ≡ []
    → HasDistinctIds rules
unfolding duplicate_ids
distinct_of_empty seen [] h r s m k e = absurd m
distinct_of_empty seen (x ∷ rules) h r s (inl p) (inl q) e = p ∙ sym q
distinct_of_empty seen (x ∷ rules) h r s (inl p) (inr q) e = absurd (
    unseen_of_empty (x.id ∷ seen) rules (ground arith) s q
      (inl (sym e ∙ ap (λ (y : PolicyRule). y.id) p)))
distinct_of_empty seen (x ∷ rules) h r s (inr p) (inl q) e = absurd (
    unseen_of_empty (x.id ∷ seen) rules (ground arith) r p
      (inl (e ∙ ap (λ (y : PolicyRule). y.id) q)))
distinct_of_empty seen (x ∷ rules) h r s (inr p) (inr q) e =
    distinct_of_empty (x.id ∷ seen) rules (ground arith) r s p q e

-- The schema accepts no document in which two rules share an id.
pub valid-HasDistinctIds :
    (p : PolicyDocument) → is_valid_document p ≡ true → HasDistinctIds p.rules
unfolding is_valid_document is_empty
valid-HasDistinctIds p h = distinct_of_empty [] p.rules (ground arith)

pub valid-rule_id :
    (p : PolicyDocument) (r : PolicyRule)
    → is_valid_document p ≡ true
    → In r p.rules
    → is_rule_id r.id ≡ true
unfolding is_valid_document is_valid_rule
valid-rule_id p r h m =
    let rule_is_valid : is_valid_rule r ≡ true = all-In is_valid_rule p.rules (ground arith) m in
    ground (arith, rule_is_valid)
