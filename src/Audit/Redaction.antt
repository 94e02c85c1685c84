-- ===== src/Audit/Redaction.antt =====
-- audit/redaction.ts on JSON values, which hold no cycle, no bigint and nothing undefined.
pub mod Secrets
use agent_permission_guard.Base.{
  ltb, leb, if◌then◌else◌, length, take, Text, codes, text_eq, decimal, ℕ, zero, suc, ◌+◌, ◌-◌,
  Bool, List, [], ◌∷◌, ◌++◌,
}
use agent_permission_guard.Json.{
  Value, null, bool, number, text, array, object, Items, nil, cons, Fields, end, entry,
  items_length, fields_length,
}
use agent_permission_guard.Risk.{contains_any}

-- The alternatives of SECRET_KEY, with `[_-]?` written out.
abbrev pub secret_keys : List Text
secret_keys =
    codes "apikey"
    ∷ codes "api_key"
    ∷ codes "api-key"
    ∷ codes "authorization"
    ∷ codes "cookie"
    ∷ codes "credential"
    ∷ codes "password"
    ∷ codes "privatekey"
    ∷ codes "private_key"
    ∷ codes "private-key"
    ∷ codes "secret"
    ∷ codes "token"
    ∷ []

unfoldable pub is_secret_key : Text → Bool
unfolding contains_any
is_secret_key key = contains_any secret_keys key

abbrev pub max_depth : ℕ
max_depth = 12

abbrev pub max_collection_items : ℕ
max_collection_items = 100

abbrev pub max_string_length : ℕ
max_string_length = 512

-- `[TRUNCATED:` n `_ITEMS]`.
items_note : ℕ → Text
unfolding decimal
items_note n = codes "[TRUNCATED:" ++ (decimal n ++ codes "_ITEMS]")

fields_note : ℕ → Text
unfolding decimal
fields_note n = decimal n ++ codes " fields"

pub redact_text : Text → Text
redact_text s =
    if leb (length s) max_string_length then s else take max_string_length s ++ codes "[TRUNCATED]"

-- The element that is pushed behind the first hundred.
pub items_tail : ℕ → Items
unfolding items_note
items_tail n =
    if ltb max_collection_items n
    then cons (text (items_note (n - max_collection_items))) nil
    else nil

replace_field : Text → Value → Fields → Fields
replace_field key v end = entry key v end
replace_field key v (entry k w fs) =
    if text_eq key k then entry k v fs else entry k w (replace_field key v fs)

-- `result[key] = v`: a new key goes last, and `__proto__` is no key of the object's own.
pub set_field : Text → Value → Fields → Fields
unfolding replace_field
set_field key v fs = if text_eq key (codes "__proto__") then fs else replace_field key v fs

pub truncate_fields : ℕ → Fields → Fields
unfolding fields_note
truncate_fields n fs =
    if ltb max_collection_items n
    then set_field (codes "__truncated__") (text (fields_note (n - max_collection_items))) fs
    else fs

-- `redact` below the test of the depth; the number counts the elements that `slice` leaves, and the
-- entries are added to the result built so far.
mutual
  pub redact : Value → ℕ → Value
  redact (text s) depth =
      if ltb max_depth depth then text (codes "[TRUNCATED:DEPTH]") else text (redact_text s)
  redact (array xs) depth =
      if ltb max_depth depth
      then text (codes "[TRUNCATED:DEPTH]")
      else array (redact_items xs max_collection_items (suc depth) (items_tail (items_length xs)))
  redact (object fs) depth =
      if ltb max_depth depth
      then text (codes "[TRUNCATED:DEPTH]")
      else object (
          truncate_fields (fields_length fs)
            (redact_fields fs max_collection_items (suc depth) end))
  redact null depth = if ltb max_depth depth then text (codes "[TRUNCATED:DEPTH]") else null
  redact (bool b) depth = if ltb max_depth depth then text (codes "[TRUNCATED:DEPTH]") else bool b
  redact (number n) depth =
      if ltb max_depth depth then text (codes "[TRUNCATED:DEPTH]") else number n

  pub redact_items : Items → ℕ → ℕ → Items → Items
  redact_items nil n depth tail = tail
  redact_items (cons x xs) zero depth tail = tail
  redact_items (cons x xs) (suc n) depth tail = cons (redact x depth) (redact_items xs n depth tail)

  pub redact_fields : Fields → ℕ → ℕ → Fields → Fields
  redact_fields end n depth result = result
  redact_fields (entry key v fs) zero depth result = result
  redact_fields (entry key v fs) (suc n) depth result = redact_fields fs n depth (
      set_field key (if is_secret_key key then text (codes "[REDACTED]") else redact v depth)
        result)

unfoldable pub redact_for_audit : Value → Value
unfolding redact redact_text items_tail truncate_fields set_field
redact_for_audit v = redact v 0
