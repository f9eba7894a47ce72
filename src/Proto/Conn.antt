-- ===== src/Proto/Conn.antt =====
-- crates/jet-proto/src/conn.rs: the state of a connection, without its socket, its errors, and the
-- allocation of stream identifiers.
pub mod Streams
pub mod Transport
pub mod Handshake
pub mod Client
mod Tests
use jetrun.Proto.Frame.{version, FrameError, MsgType}
use jetrun.Proto.Msg.{Invalid, ErrorMsg}
use jetrun.Prelude.{ℕ, ◌+◌, ◌%◌, ◌^◌, Bool, true, false, ◌==◌, if◌then◌else◌}
use Prim.Native.Nat.{max, bit_and}

pub record JrpConn : Type 0 where
  pub version : ℕ
  pub peer_caps : ℕ
  pub next_stream_id : ℕ
  pub client_side : Bool

-- `io::ErrorKind`, as far as the code tells the kinds apart.
pub data IoError : Type 0 where
  unexpected_eof connection_reset other_io : IoError

pub data ConnError (CodecError : Type 0) : Type 0 where
  io : IoError → ConnError CodecError
  frame : FrameError → ConnError CodecError
  codec : CodecError → ConnError CodecError
  unexpected : MsgType → ConnError CodecError
  peer : ErrorMsg → ConnError CodecError
  payload_too_large : ℕ → ConnError CodecError
  invalid : Invalid → ConnError CodecError

-- `JrpConn::server` and `JrpConn::client`
abbrev pub server : JrpConn
server = record { version = version; peer_caps = 0; next_stream_id = 2; client_side = false }

abbrev pub client : JrpConn
client = record { version = version; peer_caps = 0; next_stream_id = 1; client_side = true }

unfoldable pub peer_supports : JrpConn → ℕ → Bool
peer_supports conn cap = bit_and conn.peer_caps cap == cap

-- `next_stream`: the addition wraps at 32 bits, and the least identifier of the side comes after.
unfoldable pub next_stream : JrpConn → ℕ × JrpConn
next_stream conn = (
  conn.next_stream_id,
  record conn {
    next_stream_id = max ((conn.next_stream_id + 2) % 2 ^ 32) (if conn.client_side then 1 else 2);
  },
)
