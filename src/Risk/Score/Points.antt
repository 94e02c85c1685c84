-- ===== src/Risk/Score/Points.antt =====
-- The score as a function of the set of signals.
use mathlib.Core.Path.{fun_ext}
use agent_permission_guard.Base.{
  if◌then◌else◌, Bool-cases, Text, ℕ, ◌+◌, ◌≤◌, min, ◌≡◌, refl, sym, ap, ◌∙◌, inl, inr, Bool, true,
  false, ◌||◌, Option, none, some, List, [], ◌∷◌, ◌++◌, arith,
}
use agent_permission_guard.Json.{
  Value, null, bool, number, text, array, object, Items, nil, cons, Fields, end, entry,
}
use agent_permission_guard.Risk.Patterns.{
  has_word, contains_any, is_any_of, credential_keys, privileged_values, broad_values,
}
use agent_permission_guard.Risk.Signals.{
  RiskTag, local_read, local_write, destructive, external_side_effect, credential_access,
  privileged_target, broad_target, shell_execution, open_world, tag_eq, signal_points, SignalSource,
  policy_tag, tool_name, argument_key, argument_value, annotation, EvidencePath, root, field,
  element, RiskSignal, Annotations, RiskInput, has_signal, add_signal,
}
use agent_permission_guard.Risk.Score.{
  add_policy_tags, detector_words, detectors, add_detected, inspect_text, inspect_key,
  inspect_value, inspect_items, inspect_fields, add_annotations, collect_signals, insert_signal,
  sort_signals, sum_points, base_score, score_risk,
}
use agent_permission_guard.Risk.Score.Raised.{raised, has-add, has-collect}

abbrev weigh : (RiskTag → Bool) → RiskTag → ℕ
weigh present c = if present c then signal_points c else 0

-- The points of a set of codes: each code counts once.
unfoldable pub points_of : (RiskTag → Bool) → ℕ
points_of present =
    weigh present local_write
    + weigh present destructive
    + weigh present external_side_effect
    + weigh present credential_access
    + weigh present privileged_target
    + weigh present broad_target
    + weigh present shell_execution
    + weigh present open_world

points_of_insert :
    (present : RiskTag → Bool) (d : RiskTag)
    → present d ≡ false
    → points_of (λ c. present c || tag_eq c d) ≡ points_of present + signal_points d
unfolding points_of signal_points tag_eq
points_of_insert present local_read h = ground arith
points_of_insert present local_write h = ground arith
points_of_insert present destructive h = ground arith
points_of_insert present external_side_effect h = ground arith
points_of_insert present credential_access h = ground arith
points_of_insert present privileged_target h = ground arith
points_of_insert present broad_target h = ground arith
points_of_insert present shell_execution h = ground arith
points_of_insert present open_world h = ground arith

sum_points-append :
    (ss : List RiskSignal) (s : RiskSignal) → sum_points (ss ++ s ∷ []) ≡ sum_points ss + s.points
unfolding sum_points
sum_points-append [] s = omega arith
sum_points-append (t ∷ ss) s = omega (arith, sum_points-append ss s)

-- The points in the map are those of the set of its codes.
abbrev Tallies : List RiskSignal → Type 0
Tallies ss = sum_points ss ≡ points_of (λ c. has_signal c ss)

add_old :
    (ss : List RiskSignal) (d : RiskTag) (n : ℕ) (src : SignalSource) (p : Option EvidencePath)
    → has_signal d ss ≡ true
    → add_signal ss d n src p ≡ ss
unfolding add_signal
add_old ss d n src p h = rw h

sum_new :
    (ss : List RiskSignal) (d : RiskTag) (n : ℕ) (src : SignalSource) (p : Option EvidencePath)
    → has_signal d ss ≡ false
    → sum_points (add_signal ss d n src p) ≡ sum_points ss + n
unfolding add_signal
sum_new ss d n src p h = rw h (sum_points-append ss _)

add-Tallies :
    (ss : List RiskSignal) (d : RiskTag) (src : SignalSource) (p : Option EvidencePath)
    → Tallies ss
    → Tallies (add_signal ss d (signal_points d) src p)
add-Tallies ss d src p h = elim (Bool-cases (has_signal d ss)) [
  | inl old ↦ rw (add_old ss d (signal_points d) src p old) h
  | inr new ↦
      sum_new ss d (signal_points d) src p new
      ∙ ap (λ (n : ℕ). n + signal_points d) h
      ∙ sym (points_of_insert (λ c. has_signal c ss) d new)
      ∙ ap points_of (fun_ext (λ c. sym (has-add c d ss (signal_points d) src p)))
]

tags-Tallies :
    (tags : List RiskTag) (ss : List RiskSignal) → Tallies ss → Tallies (add_policy_tags tags ss)
unfolding add_policy_tags
tags-Tallies [] ss h = h
tags-Tallies (t ∷ tags) ss h = elim (Bool-cases (tag_eq t local_read)) [
  | inl e ↦ rw e (tags-Tallies tags ss h)
  | inr e ↦ rw e (tags-Tallies tags _ (add-Tallies ss t policy_tag none h))
]

detected-Tallies :
    (ds : List RiskTag) (name : Text) (ss : List RiskSignal)
    → Tallies ss
    → Tallies (add_detected ds name ss)
unfolding add_detected
detected-Tallies [] name ss h = h
detected-Tallies (d ∷ ds) name ss h = elim (Bool-cases (has_word (detector_words d) name)) [
  | inl e ↦ rw e (detected-Tallies ds name _ (add-Tallies ss d tool_name none h))
  | inr e ↦ rw e (detected-Tallies ds name ss h)
]

-- An addition under a condition.
when-Tallies :
    (b : Bool) (ss : List RiskSignal) (d : RiskTag) (src : SignalSource) (p : Option EvidencePath)
    → Tallies ss
    → Tallies (if b then add_signal ss d (signal_points d) src p else ss)
when-Tallies true ss d src p h = add-Tallies ss d src p h
when-Tallies false ss d src p h = h

mutual
  unfolding inspect_value inspect_text inspect_key

  value-Tallies :
      (v : Value) (p : EvidencePath) (ss : List RiskSignal)
      → Tallies ss
      → Tallies (inspect_value v p ss)
  value-Tallies (array xs) p ss h = items-Tallies xs 0 p ss h
  value-Tallies (object fs) p ss h = fields-Tallies fs p ss h
  value-Tallies (text s) p ss h =
      when-Tallies (is_any_of broad_values s) _ broad_target argument_value (some p) (
        when-Tallies (is_any_of privileged_values s) ss privileged_target argument_value (some p) h)
  value-Tallies null p ss h = h
  value-Tallies (bool _) p ss h = h
  value-Tallies (number _) p ss h = h

  items-Tallies :
      (xs : Items) (i : ℕ) (p : EvidencePath) (ss : List RiskSignal)
      → Tallies ss
      → Tallies (inspect_items xs i p ss)
  items-Tallies nil i p ss h = h
  items-Tallies (cons x xs) i p ss h =
      items-Tallies xs (i + 1) p _ (value-Tallies x (element p i) ss h)

  fields-Tallies :
      (fs : Fields) (p : EvidencePath) (ss : List RiskSignal)
      → Tallies ss
      → Tallies (inspect_fields fs p ss)
  fields-Tallies end p ss h = h
  fields-Tallies (entry key v fs) p ss h = fields-Tallies fs p _ (
      value-Tallies v (field p key) _ (
        when-Tallies (contains_any credential_keys key) ss credential_access argument_key
          (some (field p key)) h))

annotations-Tallies :
    (a : Option Annotations) (ss : List RiskSignal) → Tallies ss → Tallies (add_annotations a ss)
unfolding add_annotations
annotations-Tallies none ss h = h
annotations-Tallies (some a) ss h =
    when-Tallies a.open_world_hint _ open_world annotation none
      (when-Tallies a.destructive_hint ss destructive annotation none h)

no-Tallies : Tallies []
unfolding sum_points points_of has_signal
no-Tallies = refl

collect-Tallies : (input : RiskInput) → Tallies (collect_signals input)
unfolding collect_signals
collect-Tallies input = annotations-Tallies input.annotations _ (
    fields-Tallies input.arguments root _
      (detected-Tallies detectors input.tool_name _ (tags-Tallies input.policy_tags [] no-Tallies)))

insert-sum :
    (s : RiskSignal) (ts : List RiskSignal)
    → sum_points (insert_signal s ts) ≡ s.points + sum_points ts
unfolding insert_signal sum_points
insert-sum s [] = refl
insert-sum s (t ∷ ts) = ground (arith, insert-sum s ts)

sort-sum : (ss : List RiskSignal) → sum_points (sort_signals ss) ≡ sum_points ss
unfolding sort_signals sum_points
sort-sum [] = refl
sort-sum (s ∷ ss) = omega (arith, insert-sum s (sort_signals ss), sort-sum ss)

-- The score is the base (10 when the rule says `local_read`, else 25) plus, once for each code that
-- some detector raises, the points of that code, cut off at 100: whatever the order of the tags and
-- of the arguments, and however often a code is raised.
pub score_risk-score :
    (input : RiskInput)
    → (score_risk input).score ≡ min 100 (base_score input.policy_tags + points_of (raised input))
unfolding score_risk
score_risk-score input =
    ap (λ (n : ℕ). min 100 (base_score input.policy_tags + n))
      (sort-sum (collect_signals input)
        ∙ collect-Tallies input
        ∙ ap points_of (fun_ext (λ c. has-collect c input)))

weigh_mono :
    (p q : RiskTag → Bool)
    → ((c : RiskTag) → p c ≡ true → q c ≡ true)
    → (c : RiskTag) → weigh p c ≤ weigh q c
weigh_mono p q h c = ground (arith, h c)

points_of_mono :
    (p q : RiskTag → Bool) → ((c : RiskTag) → p c ≡ true → q c ≡ true) → points_of p ≤ points_of q
unfolding points_of
points_of_mono p q h = omega (
  arith,
  weigh_mono p q h local_write,
  weigh_mono p q h destructive,
  weigh_mono p q h external_side_effect,
  weigh_mono p q h credential_access,
  weigh_mono p q h privileged_target,
  weigh_mono p q h broad_target,
  weigh_mono p q h shell_execution,
  weigh_mono p q h open_world,
)

-- More evidence never lowers the score: of two inputs with the same base, the one whose detectors
-- raise all that the other's raise scores at least as high.
score_risk_mono :
    (a b : RiskInput)
    → base_score a.policy_tags ≡ base_score b.policy_tags
    → ((c : RiskTag) → raised a c ≡ true → raised b c ≡ true)
    → (score_risk a).score ≤ (score_risk b).score
score_risk_mono a b e h =
    omega (arith, score_risk-score a, score_risk-score b, points_of_mono (raised a) (raised b) h)
