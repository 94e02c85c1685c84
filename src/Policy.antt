-- ===== src/Policy.antt =====
-- policy/: the policy document, the rule that wins for a tool call, and its decision.
pub mod Schema
pub mod Glob
pub mod Matcher
pub mod Evaluator
pub mod Live
