-- ===== src/Cas.antt =====
-- crates/jet-cas: the content-addressed store.
pub mod Name
pub mod Tree
pub mod Link
pub mod Store
