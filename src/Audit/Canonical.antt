-- ===== src/Audit/Canonical.antt =====
-- audit/canonical-json.ts. JSON.stringify is a parameter: its text for the entries of each object in
-- the order in which `Object.fromEntries` gets them.
use agent_permission_guard.Base.{Text, text_compare, Ordering}
use agent_permission_guard.Json.{
  Value, null, bool, number, text, array, object, Items, nil, cons, Fields, end, entry,
}

-- An entry into entries in the order of the keys, before those of its own key.
unfoldable pub insert_entry : Text → Value → Fields → Fields
insert_entry key v end = entry key v end
insert_entry key v (entry other w rest) = elim (text_compare key other) [
  | Ordering.gt ↦ entry other w (insert_entry key v rest)
  | _ ↦ entry key v (entry other w rest)
]

-- `sortValue`
unfoldable mutual
  pub sort_value : Value → Value
  sort_value null = null
  sort_value (bool b) = bool b
  sort_value (number t) = number t
  sort_value (text t) = text t
  sort_value (array vs) = array (sort_items vs)
  sort_value (object fs) = object (sort_fields fs)

  pub sort_items : Items → Items
  sort_items nil = nil
  sort_items (cons v vs) = cons (sort_value v) (sort_items vs)

  pub sort_fields : Fields → Fields
  sort_fields end = end
  sort_fields (entry key v fs) = insert_entry key (sort_value v) (sort_fields fs)

-- `canonicalJson` of a value
unfoldable pub canonical_json : (Value → Text) → Value → Text
unfolding sort_value
canonical_json stringify v = stringify (sort_value v)
