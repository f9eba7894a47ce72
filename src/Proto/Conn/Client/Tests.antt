-- ===== src/Proto/Conn/Client/Tests.antt =====
-- crates/jet-proto/src/conn.rs: both ends of a handshake.
use jetrun.Prelude.{◌≡◌, refl, [], ◌∷◌, arith, Bytes, codes, ok, err}
use jetrun.Proto.Frame.{hello, hello_ack, error, version, new_header}
use jetrun.Proto.Msg.{all_caps, bad_request, validate_hello, bounded}
use jetrun.Proto.Msg.Samples.{sample_codec}
use jetrun.Proto.Conn.{server, client, peer, next_stream}
use jetrun.Proto.Conn.Transport.{Frame}
use jetrun.Proto.Conn.Handshake.{
  delivers, Received, server_handshake, negotiate, is_hello, sent_ack,
}
use jetrun.Proto.Conn.Client.{client_hello, accept_ack, client_answer}
use jetrun.Proto.Conn.Client.Agreement.{ack_of, handshake-agrees}

abbrev jet : Bytes
jet = codes "jet"

abbrev greeting : Received (Unit {0})
greeting = record { msg_type = hello; stream_id = 1; payload = ok (client_hello client jet).1 }

abbrev reply : Frame
reply = record { header = new_header hello_ack 1 3; payload = jet }

program : Unit {0}
unfolding server_handshake negotiate is_hello validate_hello bounded client_hello next_stream
    accept_ack client_answer new_header
program = tt

-- The server's refusal reaches the client as an error of the peer.
refused :
    (client_answer sample_codec client
      (record { header = new_header error 1 2; payload = codes "no" })).0
    ≡ err (peer (record { code = bad_request; message = codes "no" }))
unfolding program
refused = refl

sent : (server_handshake delivers server jet jet greeting).1 ≡ sent_ack 1 (ack_of jet jet) ∷ []
unfolding program
sent = refl

acks : reply.header.msg_type ≡ hello_ack
unfolding program
acks = refl

handshake-agrees_example :
    let (got, sent, server_after) = server_handshake delivers server jet jet greeting in
    let (answer, client_after) = client_answer sample_codec (client_hello client jet).2 reply in
    (got ≡ ok (client_hello client jet).1)
    × (1 ≡ greeting.stream_id)
    × (answer ≡ ok (ack_of jet jet))
    × (server_after.version ≡ version)
    × (client_after.version ≡ version)
    × (server_after.peer_caps ≡ all_caps)
    × (client_after.peer_caps ≡ all_caps)
handshake-agrees_example =
    handshake-agrees sample_codec client server jet jet jet greeting reply 1 (ack_of jet jet)
      (omega arith) refl refl sent acks refl
