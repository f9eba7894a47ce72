-- ===== src/Core.antt =====
-- crates/jet-core: values that every crate shares.
pub mod Id
pub mod Digest
pub mod Scope
pub mod Permission
pub mod Role
mod Tests
