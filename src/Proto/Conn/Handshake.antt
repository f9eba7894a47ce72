-- ===== src/Proto/Conn/Handshake.antt =====
-- crates/jet-proto/src/conn.rs: the server's half of the handshake. The frame is given as it was
-- received, its payload as the decoder (rkyv) left it. How the one send of a handshake ends is a
-- parameter.
pub mod Negotiation
mod Tests
use jetrun.Proto.Conn.{JrpConn, ConnError, frame, codec, unexpected, invalid}
use jetrun.Prelude.{
  Option, none, some, ◌>>=◌, ℕ, Bool, true, false, ◌||◌, List, [], ◌∷◌, ltb, if◌then◌else◌, length,
  Result, refuse_if, ◌>>◌, Bytes, codes, ok, err,
}
use Prim.Native.Nat.{min, bit_and}
use jetrun.Proto.Frame.{MsgType, hello, version, min_version, FrameError, unsupported_version}
use jetrun.Proto.Msg.{
  Hello, HelloAck, Invalid, all_caps, bad_request, version_mismatch, validate_hello,
}

pub data Sent : Type 0 where
  sent_error : ℕ → ℕ → Sent
  sent_ack : ℕ → HelloAck → Sent

pub record Received (CodecError : Type 0) : Type 0 where
  pub msg_type : MsgType
  pub stream_id : ℕ
  pub payload : Result Hello CodecError

-- What the handshake returns, what it sent, and the connection after it.
abbrev pub Outcome : Type 0 → Type 0
Outcome CodecError = Result Hello (ConnError CodecError) × List Sent × JrpConn

unfoldable pub is_hello : MsgType → Bool
is_hello hello = true
is_hello _ = false

-- A send, after which the handshake ends: `?` on its error, and a frame that fails counts as not sent.
abbrev pub after_send :
    {CodecError : Type 0}
    → Option (ConnError CodecError)
    → Sent
    → Result Hello (ConnError CodecError)
    → JrpConn
    → Outcome CodecError
after_send none sent answer conn = (answer, sent ∷ [], conn)
after_send (some e) sent answer conn = (err e, [], conn)

-- Sends that do not fail.
abbrev pub delivers : {CodecError : Type 0} → Sent → Option (ConnError CodecError)
delivers sent = none

module _ {CodecError : Type 0} (fails : Sent → Option (ConnError CodecError)) (conn : JrpConn)
    (agent session : Bytes) (stream : ℕ) where
  abbrev pub refuse : ℕ → ConnError CodecError → Outcome CodecError
  refuse code e = after_send (fails (sent_error stream code)) (sent_error stream code) (err e) conn

  abbrev pub ack_for : Hello → ℕ → HelloAck
  ack_for h negotiated = record {
    agent = agent;
    version = negotiated;
    capabilities = bit_and all_caps h.capabilities;
    session = session;
  }

  -- The connection is changed before the acknowledgement is sent.
  abbrev pub acknowledge : Hello → ℕ → Outcome CodecError
  acknowledge h negotiated =
      after_send (fails (sent_ack stream (ack_for h negotiated)))
        (sent_ack stream (ack_for h negotiated)) (ok h)
        (record conn { version = negotiated; peer_caps = h.capabilities })

  unfoldable pub negotiate : Hello → Outcome CodecError
  negotiate h =
      let negotiated = min version h.max_version in
      if ltb negotiated min_version || ltb negotiated h.min_version
      then refuse version_mismatch (frame (unsupported_version h.max_version))
      else acknowledge h negotiated

  abbrev pub validated : Hello → Result (Unit {0}) Invalid → Outcome CodecError
  validated h (ok done) = negotiate h
  validated h (err e) = refuse bad_request (invalid e)

  abbrev pub decoded : Result Hello CodecError → Outcome CodecError
  decoded (ok h) = validated h (validate_hello h)
  decoded (err e) = (err (codec e), [], conn)

unfoldable pub server_handshake :
    {CodecError : Type 0}
    → (Sent → Option (ConnError CodecError))
    → JrpConn
    → Bytes
    → Bytes
    → Received CodecError
    → Outcome CodecError
server_handshake fails conn agent session r =
    if is_hello r.msg_type
    then decoded fails conn agent session r.stream_id r.payload
    else refuse fails conn agent session r.stream_id bad_request (unexpected r.msg_type)
