-- ===== src/Server.antt =====
-- crates/jet-server: what the server does with a request.
pub mod Dedupe
pub mod Verify
pub mod Event
pub mod State
pub mod Http
pub mod Session
