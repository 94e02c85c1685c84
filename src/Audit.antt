-- ===== src/Audit.antt =====
-- audit/: what is recorded of a call, and how.
pub mod Redaction
pub mod Records
pub mod Call
pub mod Finish
pub mod Lifecycle
pub mod Chain
pub mod Canonical
