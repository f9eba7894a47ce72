-- ===== src/Proto/Frame/Tests.antt =====
-- Concrete frame headers, after the unit tests of crates/jet-proto/src/frame.rs.
use jetrun.Prelude.{◌<◌, ◌≡◌, refl, ◌↔◌, true, [], ◌∷◌, arith, Bytes, codes, bytes_eq, ok, err}
use jetrun.Proto.Frame.{
  MsgType, as_u16, from_u16, allowed_preauth, FrameHeader, new_header, encode, decode, bad_magic,
  unsupported_version,
}
use jetrun.Proto.Frame.RoundTrip.{encode-decode_header}
use jetrun.Proto.Frame.Refusals.{decode-encode_outcome, allowed_preauth-as_u16}

-- `FrameHeader::new(SubmitRun, 7, 1234)` with `COMPRESSED | END_STREAM`.
abbrev submit : FrameHeader
submit = record {
  version = 1;
  msg_type = MsgType.submit_run;
  flags = 3;
  stream_id = 7;
  payload_len = 1234;
}

abbrev submit_bytes : Bytes
submit_bytes = 0x4a ∷ 0x52 ∷ 1 ∷ 0 ∷ 1 ∷ 2 ∷ 3 ∷ 0 ∷ 7 ∷ 0 ∷ 0 ∷ 0 ∷ 0xd2 ∷ 4 ∷ 0 ∷ 0 ∷ []

submit_encoded : encode submit ≡ submit_bytes
unfolding encode as_u16
submit_encoded = refl

submit_decoded : decode submit_bytes ≡ ok submit
unfolding decode from_u16 bytes_eq
submit_decoded = refl

new_ping :
    new_header MsgType.ping 1 0
    ≡ record submit { msg_type = MsgType.ping; flags = 0; stream_id = 1; payload_len = 0 }
unfolding new_header
new_ping = refl

foreign : decode (codes "GET / HTTP/1.1 x") ≡ err (bad_magic (codes "GE"))
unfolding decode bytes_eq
foreign = refl

encode-decode_header_example : encode submit ≡ submit_bytes
encode-decode_header_example =
    encode-decode_header submit_bytes submit refl (omega arith) submit_decoded

abbrev future : FrameHeader
future = record submit { version = 999 }

decode-encode_outcome_example : decode (encode future) ≡ err (unsupported_version 999)
decode-encode_outcome_example = decode-encode_outcome future (record {
  version_u16 = omega arith;
  flags_u16 = omega arith;
  stream_u32 = omega arith;
  payload_u32 = omega arith;
})

allowed_preauth-as_u16_example :
    (allowed_preauth MsgType.ping ≡ true) ↔ (as_u16 MsgType.ping < 0x0200)
allowed_preauth-as_u16_example = allowed_preauth-as_u16 MsgType.ping
