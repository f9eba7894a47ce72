-- ===== src/Proto.antt =====
-- crates/jet-proto: the JRP wire protocol.
pub mod Frame
pub mod Msg
pub mod Conn
