-- ===== src/Proto/Conn/Handshake/Tests.antt =====
-- crates/jet-proto/src/conn.rs: a handshake that agrees, and one with a newer peer.
use jetrun.Proto.Conn.{server, frame, ConnError, io, connection_reset}
use jetrun.Prelude.{Option, some, ℕ, ◌≡◌, refl, true, [], ◌∷◌, arith, codes, ok, err}
use jetrun.Proto.Frame.{hello, unsupported_version}
use jetrun.Proto.Msg.{Hello, validate_hello, bounded}
use jetrun.Proto.Conn.Handshake.{
  Received, sent_error, delivers, Sent, server_handshake, negotiate, is_hello,
}
use jetrun.Proto.Conn.Handshake.Negotiation.{IsCommon, server_handshake-common}

abbrev greeting : ℕ → ℕ → Hello
greeting least most = record {
  agent = codes "jet";
  min_version = least;
  max_version = most;
  capabilities = 0b0101;
}

abbrev received : Hello → Received ℕ
received h = record { msg_type = hello; stream_id = 1; payload = ok h }

program : Unit {0}
unfolding server_handshake negotiate validate_hello bounded is_hello
program = tt

newer :
    (server_handshake delivers server (codes "jetd") (codes "s") (received (greeting 2 3)))
    ≡ (err (frame (unsupported_version 3)), sent_error 1 6 ∷ [], server)
unfolding program
newer = refl

-- A socket that is gone.
abbrev broken : Sent → Option (ConnError ℕ)
broken sent = some (io connection_reset)

-- The acknowledgement cannot be sent: the version and the capabilities are set by then.
unsent :
    server_handshake broken server (codes "jetd") (codes "s") (received (greeting 1 3))
    ≡ (err (io connection_reset), [], record server { version = 1; peer_caps = 0b0101 })
unfolding program
unsent = refl

one-IsCommon : IsCommon (greeting 1 3) 1
one-IsCommon = (omega arith, omega arith, omega arith, omega arith)

valid : validate_hello (greeting 1 3) ≡ ok tt
unfolding program
valid = refl

is_greeting : is_hello hello ≡ true
unfolding program
is_greeting = refl

server_handshake-common_example :
    (server_handshake delivers server (codes "jetd") (codes "s") (received (greeting 1 3))).0
    ≡ ok (greeting 1 3)
server_handshake-common_example =
    server_handshake-common ℕ server (codes "jetd") (codes "s") (received (greeting 1 3))
      (greeting 1 3) 1 is_greeting refl valid one-IsCommon
