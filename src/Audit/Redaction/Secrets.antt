-- ===== src/Audit/Redaction/Secrets.antt =====
-- What `redactForAudit` keeps out of its result.
use agent_permission_guard.Base.{
  if◌then◌else◌, Text, codes, ℕ, zero, suc, ◌≡◌, refl, ap, ◌∙◌, Bool, true,
}
use agent_permission_guard.Json.{
  Value, null, bool, number, text, array, object, Items, nil, cons, Fields, end, entry,
  items_length, fields_length,
}
use agent_permission_guard.Audit.Redaction.{
  is_secret_key, max_collection_items, set_field, redact, redact_items, redact_fields,
  redact_for_audit,
}

-- Two values differ at most below secret keys: in what those hold, at any depth.
mutual
  pub data SameButSecrets : Value → Value → Type 0 where
    same_null : SameButSecrets null null
    same_bool : {b : Bool} → SameButSecrets (bool b) (bool b)
    same_number : {n : Text} → SameButSecrets (number n) (number n)
    same_text : {s : Text} → SameButSecrets (text s) (text s)
    same_array : {xs ys : Items} → SameItems xs ys → SameButSecrets (array xs) (array ys)
    same_object : {fs gs : Fields} → SameFields fs gs → SameButSecrets (object fs) (object gs)

  pub data SameItems : Items → Items → Type 0 where
    same_nil : SameItems nil nil
    same_cons :
        {x y : Value} {xs ys : Items}
        → SameButSecrets x y
        → SameItems xs ys
        → SameItems (cons x xs) (cons y ys)

  pub data SameFields : Fields → Fields → Type 0 where
    same_end : SameFields end end
    same_entry :
        {key : Text} {v w : Value} {fs gs : Fields}
        → SameButSecrets v w
        → SameFields fs gs
        → SameFields (entry key v fs) (entry key w gs)
    secret_entry :
        {key : Text} {v w : Value} {fs gs : Fields}
        → is_secret_key key ≡ true
        → SameFields fs gs
        → SameFields (entry key v fs) (entry key w gs)

same-items_length : {xs ys : Items} → SameItems xs ys → items_length xs ≡ items_length ys
unfolding items_length
same-items_length same_nil = refl
same-items_length (same_cons h k) = ap suc (same-items_length k)

same-fields_length : {fs gs : Fields} → SameFields fs gs → fields_length fs ≡ fields_length gs
unfolding fields_length
same-fields_length same_end = refl
same-fields_length (same_entry h k) = ap suc (same-fields_length k)
same-fields_length (secret_entry h k) = ap suc (same-fields_length k)

-- What is kept of an entry.
abbrev shown : Text → Value → Value
shown key v = if is_secret_key key then text (codes "[REDACTED]") else v

hidden : (key : Text) (v w : Value) → is_secret_key key ≡ true → shown key v ≡ shown key w
hidden key v w h = rw h

mutual
  unfolding redact redact_items redact_fields

  same-redact : {v w : Value} → SameButSecrets v w → (depth : ℕ) → redact v depth ≡ redact w depth
  same-redact same_null depth = refl
  same-redact same_bool depth = refl
  same-redact same_number depth = refl
  same-redact same_text depth = refl
  same-redact (same_array h) depth =
      rw (same-items_length h, same-redact_items h max_collection_items (suc depth) _) refl
  same-redact (same_object h) depth =
      rw (same-fields_length h, same-redact_fields h max_collection_items (suc depth) end) refl

  same-redact_items :
      {xs ys : Items}
      → SameItems xs ys
      → (n depth : ℕ) (tail : Items) → redact_items xs n depth tail ≡ redact_items ys n depth tail
  same-redact_items same_nil n depth tail = refl
  same-redact_items (same_cons h k) zero depth tail = refl
  same-redact_items (same_cons h k) (suc n) depth tail =
      rw (same-redact h depth, same-redact_items k n depth tail) refl

  same-redact_fields :
      {fs gs : Fields}
      → SameFields fs gs
      → (n depth : ℕ) (result : Fields)
      → redact_fields fs n depth result ≡ redact_fields gs n depth result
  same-redact_fields same_end n depth result = refl
  same-redact_fields (same_entry h k) zero depth result = refl
  same-redact_fields (secret_entry h k) zero depth result = refl
  same-redact_fields (same_entry {key} {fs} h k) (suc n) depth result =
      ap (λ x. redact_fields fs n depth (set_field key (shown key x) result)) (same-redact h depth)
      ∙ same-redact_fields k n depth _
  same-redact_fields (secret_entry {key} {v} {w} {fs} h k) (suc n) depth result =
      ap (λ x. redact_fields fs n depth (set_field key x result))
        (hidden key (redact v depth) (redact w depth) h)
      ∙ same-redact_fields k n depth _

-- `redactForAudit` keeps nothing of what is below a secret key: two values that differ only there
-- are redacted to the same value.
pub redact_for_audit-SameButSecrets :
    (v w : Value) → SameButSecrets v w → redact_for_audit v ≡ redact_for_audit w
unfolding redact_for_audit
redact_for_audit-SameButSecrets v w h = same-redact h 0
