-- ===== src/Audit/Chain.antt =====
-- The hash chain of audit/recorder.ts: `appendEvent` and `verifyHashChain`. SHA-256 is the section's
-- parameter, as the function that gives the 64 hexadecimal digits of a text. A row has the columns
-- that `verifyHashChain` reads, not the copies of the id, the call, the type and the time beside them.
pub mod Tampering
use agent_permission_guard.Base.{
  if◌then◌else◌, Text, codes, text_eq, ℕ, ◌+◌, Bool, true, false, not, List, [], ◌∷◌, ◌++◌,
}

-- A row of `audit_events`; the rows stand in the order of their sequence numbers.
pub record EventRow : Type 0 where
  pub event_json : Text
  pub previous_hash : Text
  pub event_hash : Text

-- `'0'.repeat(64)`.
abbrev pub genesis_hash : Text
genesis_hash = codes "0000000000000000000000000000000000000000000000000000000000000000"

-- `ORDER BY sequence DESC LIMIT 1`, or the genesis hash.
unfoldable pub last_hash : Text → List EventRow → Text
last_hash h [] = h
last_hash h (row ∷ rows) = last_hash row.event_hash rows

abbrev pub newline : ℕ
newline = 10

module _ (sha256 : Text → Text) where
  unfoldable pub chained : Text → Text → EventRow
  chained previous json = record {
    event_json = json;
    previous_hash = previous;
    event_hash = sha256 (previous ++ newline ∷ json);
  }

  unfoldable pub append_event : Text → List EventRow → List EventRow
  unfolding last_hash chained
  append_event json rows = rows ++ chained (last_hash genesis_hash rows) json ∷ []

  -- The loop of `verifyHashChain`.
  unfoldable pub verify_from : Text → List EventRow → Bool
  verify_from expected [] = true
  verify_from expected (row ∷ rows) =
      let rest = verify_from row.event_hash rows in
      if not (text_eq row.previous_hash expected)
      then false
      else if not (text_eq (sha256 (row.previous_hash ++ newline ∷ row.event_json)) row.event_hash)
      then false
      else rest

  unfoldable pub verify_hash_chain : List EventRow → Bool
  unfolding verify_from
  verify_hash_chain rows = verify_from genesis_hash rows
