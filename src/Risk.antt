-- ===== src/Risk.antt =====
-- risk/scorer.ts and risk/types.ts, with the risk tags of policy/schema.ts: the score of a tool call.
mod Patterns
mod Signals
pub mod Score
unfoldable pub use Patterns.{has_word, contains_any, is_any_of, credential_keys}
unfoldable pub use Patterns.{privileged_values, broad_values}
unfoldable pub use Signals.*
