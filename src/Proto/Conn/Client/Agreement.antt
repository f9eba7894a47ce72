-- ===== src/Proto/Conn/Client/Agreement.antt =====
-- crates/jet-proto/src/conn.rs: the two halves of the handshake end in the same version.
use jetrun.Prelude.{ℕ, List, ◌≤◌, ◌≡◌, refl, [], ◌∷◌, le→ltb, length, Bytes, ok}
use jetrun.Proto.Conn.Handshake.{
  delivers, Sent, Received, sent_ack, is_hello, negotiate, server_handshake,
}
use jetrun.Proto.Frame.{hello, hello_ack, version}
use jetrun.Proto.Msg.{HelloAck, Codec, all_caps, validate_hello, bounded}
use jetrun.Proto.Conn.{JrpConn}
use jetrun.Proto.Conn.Transport.{Frame}
use jetrun.Proto.Conn.Client.{client_hello, accept_ack, client_answer}

-- The acknowledgement of a server of this build to a client of this build.
abbrev pub ack_of : Bytes → Bytes → HelloAck
ack_of agent session = record {
  agent = agent;
  version = version;
  capabilities = all_caps;
  session = session;
}

module _ {CodecError : Type 0} (decoder : Codec CodecError) (at_client at_server : JrpConn)
    (client_agent server_agent session : Bytes) where
  -- The server's half.
  pub server-client_hello :
      (r : Received CodecError)
      → r.msg_type ≡ hello
      → r.payload ≡ ok (client_hello at_client client_agent).1
      → length client_agent ≤ 128
      → server_handshake delivers at_server server_agent session r ≡ (
        ok (client_hello at_client client_agent).1,
        sent_ack r.stream_id (ack_of server_agent session) ∷ [],
        record at_server { version = version; peer_caps = all_caps },
      )
  unfolding server_handshake is_hello negotiate validate_hello bounded client_hello
  server-client_hello r greets payload short =
      rw (greets, payload, le→ltb 128 (length client_agent) short) refl

  -- A client of this build whose name is short enough opens the handshake with a server of this build,
  -- and each receives what the other sent: both succeed, the server acknowledges on the stream of the
  -- client's frame, and both end with this build's version and with all its capabilities for the other.
  pub handshake-agrees :
      (r : Received CodecError) (f : Frame) (stream : ℕ) (ack : HelloAck)
      → length client_agent ≤ 128
      → r.msg_type ≡ hello
      → r.payload ≡ ok (client_hello at_client client_agent).1
      → (server_handshake delivers at_server server_agent session r).1 ≡ sent_ack stream ack ∷ []
      → f.header.msg_type ≡ hello_ack
      → decoder.decode_hello_ack f.payload ≡ ok ack
      → let (got, sent, server_after) =
          server_handshake delivers at_server server_agent session r in
        let (answer, client_after) =
          client_answer decoder (client_hello at_client client_agent).2 f in
        (got ≡ ok (client_hello at_client client_agent).1)
        × (stream ≡ r.stream_id)
        × (answer ≡ ok ack)
        × (server_after.version ≡ version)
        × (client_after.version ≡ version)
        × (server_after.peer_caps ≡ all_caps)
        × (client_after.peer_caps ≡ all_caps)
  unfolding client_answer accept_ack
  handshake-agrees r f stream ack short greets payload sent acks reply =
      let answer = server-client_hello r greets payload short in
      let (a, b) = sent-same (rw answer at sent) in
      rw (answer, acks, reply, ← a, ← b) (refl, refl, refl, refl, refl, refl, refl)
    where
      sent-same :
          ◌≡◌ {A = List Sent}
            (sent_ack r.stream_id (ack_of server_agent session) ∷ [])
            (sent_ack stream ack ∷ [])
          → (r.stream_id ≡ stream) × (ack_of server_agent session ≡ ack)
      sent-same h = (cc, cc)
