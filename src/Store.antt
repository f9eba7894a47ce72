-- ===== src/Store.antt =====
-- crates/jet-store: the database and what is seeded in it.
pub mod Bootstrap
