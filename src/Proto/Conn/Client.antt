-- ===== src/Proto/Conn/Client.antt =====
-- crates/jet-proto/src/conn.rs: the client's half of the handshake, and its ping, each as the message
-- that is sent and the reading of the frame that comes back.
pub mod Agreement
mod Tests
use jetrun.Prelude.{ℕ, Bytes, ltb, ◌||◌, if◌then◌else◌, Result, ok, err}
use jetrun.Proto.Frame.{MsgType, hello_ack, error, pong, version, min_version, unsupported_version}
use jetrun.Proto.Msg.{Hello, HelloAck, ErrorMsg, Ping, Pong, Codec, all_caps}
use jetrun.Proto.Conn.{JrpConn, ConnError, frame, codec, unexpected, peer, next_stream}
use jetrun.Proto.Conn.Transport.{Frame}

-- The first frame of `client_handshake`: its stream, its message, and the connection after it.
unfoldable pub client_hello : JrpConn → Bytes → ℕ × Hello × JrpConn
client_hello conn agent =
    let (stream_id, conn) = next_stream conn in
    (
      stream_id,
      record {
        agent = agent;
        min_version = min_version;
        max_version = version;
        capabilities = all_caps;
      },
      conn,
    )

module _ {CodecError : Type 0} (decoder : Codec CodecError) where
  unfoldable pub accept_ack : JrpConn → HelloAck → Result HelloAck (ConnError CodecError) × JrpConn
  accept_ack conn ack =
      if ltb ack.version min_version || ltb version ack.version
      then (err (frame (unsupported_version ack.version)), conn)
      else (ok ack, record conn { version = ack.version; peer_caps = ack.capabilities })

  abbrev pub acked :
      JrpConn → Result HelloAck CodecError → Result HelloAck (ConnError CodecError) × JrpConn
  acked conn (ok ack) = accept_ack conn ack
  acked conn (err e) = (err (codec e), conn)

  abbrev pub peer_error :
      {A : Type 0} → Result ErrorMsg CodecError → Result A (ConnError CodecError)
  peer_error (ok e) = err (peer e)
  peer_error (err e) = err (codec e)

  abbrev pub hello_answer :
      JrpConn → MsgType → Bytes → Result HelloAck (ConnError CodecError) × JrpConn
  hello_answer conn hello_ack payload = acked conn (decoder.decode_hello_ack payload)
  hello_answer conn error payload = (peer_error (decoder.decode_error payload), conn)
  hello_answer conn other payload = (err (unexpected other), conn)

  -- `client_handshake` on the frame that the server answers with.
  unfoldable pub client_answer : JrpConn → Frame → Result HelloAck (ConnError CodecError) × JrpConn
  client_answer conn f = hello_answer conn f.header.msg_type f.payload

  abbrev pub nonce_of : Result Pong CodecError → Result ℕ (ConnError CodecError)
  nonce_of (ok p) = ok p.nonce
  nonce_of (err e) = err (codec e)

  abbrev pub pong_answer : MsgType → Bytes → Result ℕ (ConnError CodecError)
  pong_answer pong payload = nonce_of (decoder.decode_pong payload)
  pong_answer other payload = err (unexpected other)

  -- `ping` on the frame that comes back.
  unfoldable pub ping_answer : Frame → Result ℕ (ConnError CodecError)
  ping_answer f = pong_answer f.header.msg_type f.payload
