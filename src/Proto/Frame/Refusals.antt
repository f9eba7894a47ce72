-- ===== src/Proto/Frame/Refusals.antt =====
-- crates/jet-proto/src/frame.rs: what the decoder refuses, and which message kinds need `Auth`.
use jetrun.Proto.Frame.{
  MsgType, as_u16, allowed_preauth, FrameHeader, encode, decode, version, min_version, max_payload,
  unsupported_version, payload_too_large,
}
use jetrun.Proto.Frame.RoundTrip.{le_u16, le_u32, as_u16-lt, from_u16-as_u16}
use jetrun.Prelude.{
  ok, err, ◌≡◌, refl, ◌||◌, ◌↔◌, ◌<◌, ◌^◌, if◌then◌else◌, bytes_eq, true, arith, ltb,
}

-- What the machine types of the fields guarantee.
pub record FitsWire (h : FrameHeader) : Type 0 where
  pub version_u16 : h.version < 2 ^ 16
  pub flags_u16 : h.flags < 2 ^ 16
  pub stream_u32 : h.stream_id < 2 ^ 32
  pub payload_u32 : h.payload_len < 2 ^ 32

-- For every header that its machine types can hold, the decoder answers the encoding as follows: an
-- unsupported version is refused first, then a payload over the limit, and all others are read back.
pub decode-encode_outcome :
    (h : FrameHeader)
    → FitsWire h
    → decode (encode h) ≡ (
        if ltb h.version min_version || ltb version h.version
        then err (unsupported_version h.version)
        else if ltb max_payload h.payload_len
        then err (payload_too_large h.payload_len)
        else ok h)
unfolding decode encode bytes_eq
decode-encode_outcome h v =
    rw
      (
        le_u16 h.version v.version_u16,
        le_u16 (as_u16 h.msg_type) (as_u16-lt h.msg_type),
        le_u16 h.flags v.flags_u16,
        le_u32 h.stream_id v.stream_u32,
        le_u32 h.payload_len v.payload_u32,
        from_u16-as_u16 h.msg_type,
      )
      (ground arith)

-- The kinds that are served before authentication are exactly those whose codes lie in the session
-- and authentication groups, 0x00xx and 0x01xx.
pub allowed_preauth-as_u16 : (t : MsgType) → (allowed_preauth t ≡ true) ↔ (as_u16 t < 0x0200)
unfolding allowed_preauth as_u16
allowed_preauth-as_u16 MsgType.hello = (λ _. omega arith, λ _. refl)
allowed_preauth-as_u16 t = (λ h. ground arith, λ h. ground arith)
