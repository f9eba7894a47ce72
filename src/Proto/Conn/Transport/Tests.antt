-- ===== src/Proto/Conn/Transport/Tests.antt =====
-- crates/jet-proto/src/conn.rs: two frames on one stream, and a stream that ends within one.
use jetrun.Prelude.{
  ◌≤◌, ◌≡◌, refl, List, [], ◌∷◌, ◌++◌, map, arith, length, take, Bytes, bytes_eq, ok, err,
}
use jetrun.Proto.Frame.{ping, goodbye, encode, decode, new_header, as_u16, from_u16, max_payload}
use jetrun.Proto.Conn.{client, io, unexpected_eof}
use jetrun.Proto.Conn.Transport.{Frame, send, recv, read_exact}
use jetrun.Proto.Conn.Transport.Delivery.{Message, frame_of, send_all, recv_all, recv_all-send_all}
use jetrun.Proto.Conn.Transport.Taken.{recv-takes}

abbrev messages : List Message
messages =
    record { msg_type = ping; stream_id = 1; payload = 7 ∷ 7 ∷ []; flags = 0 }
    ∷ record { msg_type = goodbye; stream_id = 3; payload = []; flags = 1 }
    ∷ []

program : Unit {0}
unfolding send recv read_exact encode decode new_header as_u16 from_u16 bytes_eq
program = tt

abbrev ping_bytes : Bytes
ping_bytes = 0x4a ∷ 0x52 ∷ 1 ∷ 0 ∷ 5 ∷ 0 ∷ 0 ∷ 0 ∷ 1 ∷ 0 ∷ 0 ∷ 0 ∷ 2 ∷ 0 ∷ 0 ∷ 0 ∷ 7 ∷ 7 ∷ []

abbrev ping_frame : Frame
ping_frame = record {
  header = record { version = 1; msg_type = ping; flags = 0; stream_id = 1; payload_len = 2 };
  payload = 7 ∷ 7 ∷ [];
}

received : recv {CodecError = Unit {0}} (ping_bytes ++ 9 ∷ []) ≡ ok (ping_frame, 9 ∷ [])
unfolding program
received = refl

cut_short : recv {CodecError = Unit {0}} (take 17 ping_bytes) ≡ err (io unexpected_eof)
unfolding program
cut_short = refl

recv_all-send_all_example :
    (sent : Bytes) × (send_all {CodecError = Unit {0}} client messages ≡ ok sent)
    × (recv_all {CodecError = Unit {0}} 2 (sent ++ 9 ∷ [])
        ≡ ok (map (frame_of client) messages, 9 ∷ []))
recv_all-send_all_example = recv_all-send_all client refl messages (9 ∷ []) (omega arith)

recv-takes_example :
    (ping_bytes ++ 9 ∷ [] ≡ encode ping_frame.header ++ (ping_frame.payload ++ 9 ∷ []))
    × (length ping_frame.payload ≡ ping_frame.header.payload_len)
    × (ping_frame.header.payload_len ≤ max_payload)
recv-takes_example =
    recv-takes {CodecError = Unit {0}} (ping_bytes ++ 9 ∷ []) ping_frame (9 ∷ []) (omega arith)
      received
