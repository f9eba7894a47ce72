-- ===== src/Authz.antt =====
-- crates/jet-authz: permission checks against the database, with a decision cache.
pub mod Tables
pub mod Cache
pub mod Decision
pub mod Grants
pub mod Verdict
pub mod Standing
pub mod Coherence
mod Tests
