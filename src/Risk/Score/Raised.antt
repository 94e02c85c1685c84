-- ===== src/Risk/Score/Raised.antt =====
-- Which signals `scoreRisk` raises, described by the input alone: without order, map or paths.
use agent_permission_guard.Base.{
  Bool-cases, any, any-append, Text, ℕ, ◌+◌, ◌≡◌, refl, sym, inl, inr, Bool, true, false, ◌&&◌,
  ◌||◌, not, Option, none, some, List, [], ◌∷◌, ◌++◌, arith,
}
use agent_permission_guard.Json.{
  Value, null, bool, number, text, array, object, Items, nil, cons, Fields, end, entry,
}
use agent_permission_guard.Risk.Patterns.{
  has_word, contains_any, is_any_of, credential_keys, privileged_values, broad_values,
}
use agent_permission_guard.Risk.Signals.{
  RiskTag, local_read, destructive, credential_access, privileged_target, broad_target, open_world,
  tag_eq, SignalSource, EvidencePath, root, field, element, RiskSignal, Annotations, RiskInput,
  has_signal, add_signal,
}
use agent_permission_guard.Risk.Score.{
  add_policy_tags, detector_words, detectors, add_detected, inspect_text, inspect_key,
  inspect_value, inspect_items, inspect_fields, add_annotations, collect_signals,
}

-- The keys and the texts of a value, at any depth.
unfoldable mutual
  pub value_keys : Value → List Text
  value_keys (array xs) = items_keys xs
  value_keys (object fs) = fields_keys fs
  value_keys _ = []

  pub items_keys : Items → List Text
  items_keys nil = []
  items_keys (cons x xs) = value_keys x ++ items_keys xs

  pub fields_keys : Fields → List Text
  fields_keys end = []
  fields_keys (entry key v fs) = key ∷ (value_keys v ++ fields_keys fs)

unfoldable mutual
  pub value_texts : Value → List Text
  value_texts (array xs) = items_texts xs
  value_texts (object fs) = fields_texts fs
  value_texts (text s) = s ∷ []
  value_texts _ = []

  pub items_texts : Items → List Text
  items_texts nil = []
  items_texts (cons x xs) = value_texts x ++ items_texts xs

  pub fields_texts : Fields → List Text
  fields_texts end = []
  fields_texts (entry key v fs) = value_texts v ++ fields_texts fs

-- What a set of keys and texts raises.
unfoldable pub contents_raise : RiskTag → List Text → List Text → Bool
contents_raise c keys texts =
    (tag_eq c credential_access && any (contains_any credential_keys) keys)
    || (tag_eq c privileged_target && any (is_any_of privileged_values) texts)
    || (tag_eq c broad_target && any (is_any_of broad_values) texts)

unfoldable pub tags_raise : RiskTag → List RiskTag → Bool
tags_raise c tags = not (tag_eq c local_read) && any (tag_eq c) tags

unfoldable pub name_raises : RiskTag → List RiskTag → Text → Bool
name_raises c ds name = any (λ d. tag_eq c d && has_word (detector_words d) name) ds

unfoldable pub hints_raise : RiskTag → Option Annotations → Bool
hints_raise c none = false
hints_raise c (some a) =
    (tag_eq c destructive && a.destructive_hint) || (tag_eq c open_world && a.open_world_hint)

unfoldable pub raised : RiskInput → RiskTag → Bool
unfolding tags_raise name_raises contents_raise hints_raise
raised input c =
    tags_raise c input.policy_tags
    || name_raises c detectors input.tool_name
    || contents_raise c (fields_keys input.arguments) (fields_texts input.arguments)
    || hints_raise c input.annotations

pub tag_eq_sound : (a b : RiskTag) → tag_eq a b ≡ true → a ≡ b
unfolding tag_eq
tag_eq_sound a b h = ground arith

pub has-add :
    (c d : RiskTag) (ss : List RiskSignal) (n : ℕ) (src : SignalSource) (p : Option EvidencePath)
    → has_signal c (add_signal ss d n src p) ≡ (has_signal c ss || tag_eq c d)
unfolding add_signal has_signal
has-add c d ss n src p = elim (Bool-cases (has_signal d ss)) [
  | inl old ↦ rw (old) (elim (Bool-cases (tag_eq c d)) [
    | inl same ↦ let here : has_signal c ss ≡ true = rw (tag_eq_sound c d same) old in rw here
    | inr other ↦ ground (arith, other)
  ])
  | inr new ↦ rw (new, any-append) (ground arith)
]

-- Each detector adds the codes that it finds and takes none away.
has-tags :
    (c : RiskTag) (tags : List RiskTag) (ss : List RiskSignal)
    → has_signal c (add_policy_tags tags ss) ≡ (has_signal c ss || tags_raise c tags)
unfolding add_policy_tags tags_raise
has-tags c [] ss = ground arith
has-tags c (t ∷ tags) ss = elim (Bool-cases (tag_eq t local_read)) [
  | inl e ↦
      let same = tag_eq_sound t local_read e in
      rw e (rw (has-tags c tags ss) (ground (arith, same)))
  | inr e ↦ rw e (rw (has-tags c tags _, has-add) (ground (arith, tag_eq_sound c t)))
]

has-detected :
    (c : RiskTag) (ds : List RiskTag) (name : Text) (ss : List RiskSignal)
    → has_signal c (add_detected ds name ss) ≡ (has_signal c ss || name_raises c ds name)
unfolding add_detected name_raises
has-detected c [] name ss = ground arith
has-detected c (d ∷ ds) name ss = elim (Bool-cases (has_word (detector_words d) name)) [
  | inl e ↦ rw e (rw (has-detected c ds name _, has-add) (ground arith))
  | inr e ↦ rw e (rw (has-detected c ds name ss) (ground arith))
]

has-key :
    (c : RiskTag) (key : Text) (p : EvidencePath) (ss : List RiskSignal)
    → has_signal c (inspect_key key p ss) ≡ (has_signal c ss || contents_raise c (key ∷ []) [])
unfolding inspect_key contents_raise
has-key c key p ss = elim (Bool-cases (contains_any credential_keys key)) [
  | inl e ↦ rw e (rw has-add (ground arith))
  | inr e ↦ rw e (ground arith)
]

has-text :
    (c : RiskTag) (s : Text) (p : EvidencePath) (ss : List RiskSignal)
    → has_signal c (inspect_text s p ss) ≡ (has_signal c ss || contents_raise c [] (s ∷ []))
unfolding inspect_text contents_raise
has-text c s p ss = elim (Bool-cases (is_any_of privileged_values s)) [
  | inl e ↦ elim (Bool-cases (is_any_of broad_values s)) [
    | inl f ↦ rw (e, f) (rw (has-add, has-add) (ground arith))
    | inr f ↦ rw (e, f) (rw has-add (ground arith))
  ]
  | inr e ↦ elim (Bool-cases (is_any_of broad_values s)) [
    | inl f ↦ rw (e, f) (rw has-add (ground arith))
    | inr f ↦ rw (e, f) (ground arith)
  ]
]

contents-append :
    (c : RiskTag) (ks ls ts us : List Text)
    → contents_raise c (ks ++ ls) (ts ++ us) ≡ (contents_raise c ks ts || contents_raise c ls us)
unfolding contents_raise
contents-append c ks ls ts us = rw (any-append, any-append, any-append) (ground arith)

contents-none :
    (c : RiskTag) (ss : List RiskSignal)
    → (has_signal c ss || contents_raise c [] []) ≡ has_signal c ss
unfolding contents_raise
contents-none c ss = ground arith

or_assoc : (a b c : Bool) → (a || b || c) ≡ (a || (b || c))
or_assoc a b c = ground arith

has-empty : (c : RiskTag) → has_signal c [] ≡ false
unfolding has_signal
has-empty c = refl

mutual
  unfolding inspect_value value_keys value_texts

  has-value :
      (v : Value) (c : RiskTag) (p : EvidencePath) (ss : List RiskSignal)
      → has_signal c (inspect_value v p ss)
        ≡ (has_signal c ss || contents_raise c (value_keys v) (value_texts v))
  has-value (array xs) c p ss = has-items xs c 0 p ss
  has-value (object fs) c p ss = has-fields fs c p ss
  has-value (text s) c p ss = has-text c s p ss
  has-value null c p ss = sym (contents-none c ss)
  has-value (bool _) c p ss = sym (contents-none c ss)
  has-value (number _) c p ss = sym (contents-none c ss)

  has-items :
      (xs : Items) (c : RiskTag) (i : ℕ) (p : EvidencePath) (ss : List RiskSignal)
      → has_signal c (inspect_items xs i p ss)
        ≡ (has_signal c ss || contents_raise c (items_keys xs) (items_texts xs))
  has-items nil c i p ss = sym (contents-none c ss)
  has-items (cons x xs) c i p ss =
      rw
        (
          has-items xs c (i + 1) p (inspect_value x (element p i) ss),
          has-value x c (element p i) ss,
          contents-append c (value_keys x) (items_keys xs) (value_texts x) (items_texts xs),
        )
        (simp or_assoc)

  has-fields :
      (fs : Fields) (c : RiskTag) (p : EvidencePath) (ss : List RiskSignal)
      → has_signal c (inspect_fields fs p ss)
        ≡ (has_signal c ss || contents_raise c (fields_keys fs) (fields_texts fs))
  has-fields end c p ss = sym (contents-none c ss)
  has-fields (entry key v fs) c p ss =
      rw
        (
          has-fields fs c p (inspect_value v (field p key) (inspect_key key (field p key) ss)),
          has-value v c (field p key) (inspect_key key (field p key) ss),
          has-key c key (field p key) ss,
          contents-append c (key ∷ []) (value_keys v ++ fields_keys fs) []
              (value_texts v ++ fields_texts fs),
          contents-append c (value_keys v) (fields_keys fs) (value_texts v) (fields_texts fs),
        )
        (simp or_assoc)

has-annotations :
    (c : RiskTag) (a : Option Annotations) (ss : List RiskSignal)
    → has_signal c (add_annotations a ss) ≡ (has_signal c ss || hints_raise c a)
unfolding add_annotations hints_raise
has-annotations c none ss = ground arith
has-annotations c (some a) ss = elim (Bool-cases a.destructive_hint) [
  | inl e ↦ elim (Bool-cases a.open_world_hint) [
    | inl f ↦ rw (e, f) (rw (has-add, has-add) (ground arith))
    | inr f ↦ rw (e, f) (rw has-add (ground arith))
  ]
  | inr e ↦ elim (Bool-cases a.open_world_hint) [
    | inl f ↦ rw (e, f) (rw has-add (ground arith))
    | inr f ↦ rw (e, f) (ground arith)
  ]
]

-- A signal of a code is collected exactly when some detector of that code fires on the input.
pub has-collect :
    (c : RiskTag) (input : RiskInput) → has_signal c (collect_signals input) ≡ raised input c
unfolding collect_signals raised
has-collect c input =
    rw
      (
        has-annotations c input.annotations _,
        has-fields input.arguments c root _,
        has-detected c detectors input.tool_name _,
        has-tags c input.policy_tags [],
        has-empty c,
      )
      refl
