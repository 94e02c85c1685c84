-- ===== src/Json.antt =====
-- JSON values: tool arguments, as the scorer of risk/scorer.ts and the redaction of
-- audit/redaction.ts walk through them. The entries of an object stand in the order of
-- `Object.entries`.
use agent_permission_guard.Base.{Text, ℕ, suc, Bool}

-- A JSON value. A number is carried as its text, which no code here looks into.
mutual
  pub data Value : Type 0 where
    null : Value
    bool : Bool → Value
    number : Text → Value
    text : Text → Value
    array : Items → Value
    object : Fields → Value

  pub data Items : Type 0 where
    nil : Items
    cons : Value → Items → Items

  pub data Fields : Type 0 where
    end : Fields
    entry : Text → Value → Fields → Fields

unfoldable pub items_length : Items → ℕ
items_length nil = 0
items_length (cons x xs) = suc (items_length xs)

unfoldable pub fields_length : Fields → ℕ
fields_length end = 0
fields_length (entry key v fs) = suc (fields_length fs)
