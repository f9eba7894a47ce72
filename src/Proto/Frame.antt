-- ===== src/Proto/Frame.antt =====
-- crates/jet-proto/src/frame.rs: the 16-byte frame header, its encoder and its decoder.
mod Kind
pub mod RoundTrip
mod Refusals
mod Tests
unfoldable pub use Kind.*
use Prim.Native.Nat.{bit_and, bit_or}
use jetrun.Prelude.{
  ◌==◌, ℕ, ◌+◌, ◌*◌, ◌^◌, ◌<◌, Bool, ◌||◌, not, List, [], ◌∷◌, ◌++◌, Bytes, bytes_eq, slice, length,
  take, drop, replicate, to_le_bytes, from_le_bytes, ltb, if◌then◌else◌, Result, ok, err, ◌>>=◌,
  ◌>>◌, refuse_if, ok_or,
}

-- `*b"JR"`
abbrev pub magic : Bytes
magic = 0x4a ∷ 0x52 ∷ []

abbrev pub version : ℕ
version = 1

abbrev pub min_version : ℕ
min_version = 1

abbrev pub header_len : ℕ
header_len = 16

-- `8 << 20`
abbrev pub max_payload : ℕ
max_payload = 8 * 2 ^ 20

-- `Flags(u16)`: the bits of a frame's flags.
abbrev pub no_flags : ℕ
no_flags = 0

abbrev pub compressed : ℕ
compressed = 1

abbrev pub end_stream : ℕ
end_stream = 2

abbrev pub bulk : ℕ
bulk = 4

-- `contains` and `with`
unfoldable pub flags_contain : ℕ → ℕ → Bool
flags_contain flags other = bit_and flags other == other

unfoldable pub flags_with : ℕ → ℕ → ℕ
flags_with flags other = bit_or flags other

pub record FrameHeader : Type 0 where
  pub version : ℕ
  pub msg_type : MsgType
  pub flags : ℕ
  pub stream_id : ℕ
  pub payload_len : ℕ

pub data FrameError : Type 0 where
  bad_magic : Bytes → FrameError
  unsupported_version : ℕ → FrameError
  unknown_type : ℕ → FrameError
  payload_too_large : ℕ → FrameError

-- `FrameHeader::new`
unfoldable pub new_header : MsgType → ℕ → ℕ → FrameHeader
new_header msg_type stream_id payload_len = record {
  version = version;
  msg_type = msg_type;
  flags = 0;
  stream_id = stream_id;
  payload_len = payload_len;
}

-- `b[at..at + src.len()].copy_from_slice(src)`
abbrev copy_at : ℕ → Bytes → Bytes → Bytes
copy_at at src b = take at b ++ (src ++ drop (at + length src) b)

unfoldable pub encode : FrameHeader → Bytes
unfolding as_u16
encode h =
    let b = replicate header_len 0 in
    let b = copy_at 0 magic b in
    let b = copy_at 2 (to_le_bytes 2 h.version) b in
    let b = copy_at 4 (to_le_bytes 2 (as_u16 h.msg_type)) b in
    let b = copy_at 6 (to_le_bytes 2 h.flags) b in
    let b = copy_at 8 (to_le_bytes 4 h.stream_id) b in copy_at 12 (to_le_bytes 4 h.payload_len) b

-- The argument stands for an array of `header_len` bytes.
unfoldable pub decode : Bytes → Result FrameHeader FrameError
decode b = do
  refuse_if (not (bytes_eq (slice b 0 2) magic)) (bad_magic (slice b 0 2))
  let v = from_le_bytes (slice b 2 4)
  refuse_if (ltb v min_version || ltb version v) (unsupported_version v)
  let raw_type = from_le_bytes (slice b 4 6)
  msg_type ← ok_or (from_u16 raw_type) (unknown_type raw_type)
  let payload_len = from_le_bytes (slice b 12 16)
  refuse_if (ltb max_payload payload_len) (payload_too_large payload_len)
  ok (record {
    version = v;
    msg_type = msg_type;
    flags = from_le_bytes (slice b 6 8);
    stream_id = from_le_bytes (slice b 8 12);
    payload_len = payload_len;
  })
