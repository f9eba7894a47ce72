-- ===== src/Proto/Frame/RoundTrip.antt =====
-- crates/jet-proto/src/frame.rs: encoding and decoding a header are inverse to one another.
use jetrun.Prelude.{
  ◌>>◌, ◌>>=◌, ℕ, ◌^◌, ◌≤◌, ◌<◌, ◌≡◌, refl, some, arith, Bytes, IsByte, All, length, [], ◌∷◌, ok,
  bytes_eq_iff, from_le_bytes, to_le_bytes, bytes_eq, not, ltb, refuse_if, slice, Result, ◌||◌,
  ok_or, to_le_bytes-from_le_bytes,
}
use jetrun.Proto.Frame.{
  MsgType, as_u16, from_u16, FrameHeader, encode, decode, version, max_payload, header_len, magic,
  FrameError, bad_magic, min_version, unsupported_version, unknown_type, payload_too_large,
}

pub from_u16-as_u16 : (t : MsgType) → from_u16 (as_u16 t) ≡ some t
unfolding from_u16 as_u16
from_u16-as_u16 MsgType.hello = refl
from_u16-as_u16 _ = refl

pub as_u16-lt : (t : MsgType) → as_u16 t < 0x10000
unfolding as_u16
as_u16-lt MsgType.hello = omega arith
as_u16-lt _ = omega arith

-- A code that is read as a message kind is the code of that kind.
pub as_u16-from_u16 : (v : ℕ) (t : MsgType) → from_u16 v ≡ some t → as_u16 t ≡ v
unfolding from_u16 as_u16
as_u16-from_u16 v t h = ground arith

-- The fields hold what their machine types can hold, at a version that this build speaks.
pub record IsValid (h : FrameHeader) : Type 0 where
  pub spoken : h.version ≡ version
  pub flags_u16 : h.flags < 2 ^ 16
  pub stream_u32 : h.stream_id < 2 ^ 32
  pub payload_fits : h.payload_len ≤ max_payload

pub le_u16 : (v : ℕ) → v < 0x10000 → from_le_bytes (to_le_bytes 2 v) ≡ v
le_u16 v h = omega arith

pub le_u32 : (v : ℕ) → v < 0x1_0000_0000 → from_le_bytes (to_le_bytes 4 v) ≡ v
le_u32 v h = omega arith

-- Decoding the encoding of a header gives the header back, if its version is spoken, its payload is
-- within the limit and its flags and stream fit their machine types.
pub decode-encode_header : (h : FrameHeader) → IsValid h → decode (encode h) ≡ ok h
unfolding decode encode bytes_eq
decode-encode_header h v =
    rw
      (
        le_u16 h.version (omega arith),
        le_u16 (as_u16 h.msg_type) (as_u16-lt h.msg_type),
        le_u16 h.flags v.flags_u16,
        le_u32 h.stream_id v.stream_u32,
        le_u32 h.payload_len (omega arith),
        from_u16-as_u16 h.msg_type,
      )
      (ground arith)

-- What the decoder has read when it succeeds.
pub record Reads (b : Bytes) (h : FrameHeader) : Type 0 where
  pub magic_read : slice b 0 2 ≡ magic
  pub version_read : from_le_bytes (slice b 2 4) ≡ h.version
  pub type_read : from_le_bytes (slice b 4 6) ≡ as_u16 h.msg_type
  pub flags_read : from_le_bytes (slice b 6 8) ≡ h.flags
  pub stream_read : from_le_bytes (slice b 8 12) ≡ h.stream_id
  pub payload_read : from_le_bytes (slice b 12 16) ≡ h.payload_len
  pub version_spoken : h.version ≡ version
  pub payload_bounded : h.payload_len ≤ max_payload

-- The tests of `decode` over the fields that it reads.
abbrev checked : Bytes → ℕ → ℕ → ℕ → ℕ → ℕ → Result FrameHeader FrameError
checked m v raw_type flags stream_id payload_len = do
  refuse_if (not (bytes_eq m magic)) (bad_magic m)
  refuse_if (ltb v min_version || ltb version v) (unsupported_version v)
  msg_type ← ok_or (from_u16 raw_type) (unknown_type raw_type)
  refuse_if (ltb max_payload payload_len) (payload_too_large payload_len)
  ok (record {
    version = v;
    msg_type = msg_type;
    flags = flags;
    stream_id = stream_id;
    payload_len = payload_len;
  })

checked-ok :
    (m : Bytes) (v raw flags stream len : ℕ) (h : FrameHeader)
    → checked m v raw flags stream len ≡ ok h
    → (m ≡ magic)
      × (v ≡ h.version)
      × (raw ≡ as_u16 h.msg_type)
      × (flags ≡ h.flags)
      × (stream ≡ h.stream_id)
      × (len ≡ h.payload_len)
      × (h.version ≡ version)
      × (h.payload_len ≤ max_payload)
checked-ok m v raw flags stream len h e =
    ground (arith, bytes_eq_iff m magic, as_u16-from_u16 raw h.msg_type)

pub decode-Reads : (b : Bytes) (h : FrameHeader) → decode b ≡ ok h → Reads b h
unfolding decode
decode-Reads b h e =
    let (m, v, t, f, s, p, spoken, fits) =
      checked-ok (slice b 0 2) (from_le_bytes (slice b 2 4)) (from_le_bytes (slice b 4 6))
        (from_le_bytes (slice b 6 8)) (from_le_bytes (slice b 8 12)) (from_le_bytes (slice b 12 16))
        h e in
    record {
      magic_read = m;
      version_read = v;
      type_read = t;
      flags_read = f;
      stream_read = s;
      payload_read = p;
      version_spoken = spoken;
      payload_bounded = fits;
    }

field_bytes :
    (bs : Bytes) (v : ℕ) → All IsByte bs → from_le_bytes bs ≡ v → to_le_bytes (length bs) v ≡ bs
field_bytes bs v h e = rw (← e) (to_le_bytes-from_le_bytes bs h)

-- The decoder accepts nothing but encodings: a header of sixteen bytes that it reads is encoded to
-- the same bytes.
pub encode-decode_header :
    (b : Bytes) (h : FrameHeader)
    → length b ≡ header_len
    → All IsByte b
    → decode b ≡ ok h
    → encode h ≡ b
unfolding encode
encode-decode_header
      (b0 ∷ b1 ∷ b2 ∷ b3 ∷ b4 ∷ b5 ∷ b6 ∷ b7 ∷ b8 ∷ b9 ∷ b10 ∷ b11 ∷ b12 ∷ b13 ∷ b14 ∷ b15 ∷ []) h
      len bytes e =
    let r = decode-Reads _ h e in
    cc (
      r.magic_read,
      field_bytes (b2 ∷ b3 ∷ []) h.version (omega arith) r.version_read,
      field_bytes (b4 ∷ b5 ∷ []) (as_u16 h.msg_type) (omega arith) r.type_read,
      field_bytes (b6 ∷ b7 ∷ []) h.flags (omega arith) r.flags_read,
      field_bytes (b8 ∷ b9 ∷ b10 ∷ b11 ∷ []) h.stream_id (omega arith) r.stream_read,
      field_bytes (b12 ∷ b13 ∷ b14 ∷ b15 ∷ []) h.payload_len (omega arith) r.payload_read,
    )
encode-decode_header _ h len bytes e = absurd (omega arith)
