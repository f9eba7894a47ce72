-- ===== src/Proto/Conn/Transport.antt =====
-- crates/jet-proto/src/conn.rs: frames on the byte stream of a connection. What is sent is the list of
-- the bytes written, and what is received is taken from the bytes that have arrived before the stream
-- ended; the payload of a frame to send is the bytes that the encoder (rkyv) made.
mod Tests
pub mod Delivery
pub mod Taken
use jetrun.Prelude.{
  [], ℕ, ◌++◌, Bytes, ltb, length, take, drop, if◌then◌else◌, Result, refuse_if, ok, err, ◌>>=◌,
  ◌>>◌,
}
use jetrun.Proto.Frame.{
  MsgType, FrameHeader, FrameError, new_header, encode, decode, header_len, max_payload,
}
use jetrun.Proto.Conn.{JrpConn, ConnError, io, frame, payload_too_large, unexpected_eof}

pub record Frame : Type 0 where
  pub header : FrameHeader
  pub payload : Bytes

abbrev pub stamped : JrpConn → MsgType → ℕ → Bytes → ℕ → FrameHeader
stamped conn msg_type stream_id payload flags =
    record (new_header msg_type stream_id (length payload)) {
      version = conn.version;
      flags = flags;
    }

module _ {CodecError : Type 0} where
  unfoldable pub send : JrpConn → MsgType → ℕ → Bytes → ℕ → Result Bytes (ConnError CodecError)
  send conn msg_type stream_id payload flags = do
    refuse_if (ltb max_payload (length payload)) (payload_too_large (length payload))
    ok (encode (stamped conn msg_type stream_id payload flags) ++ payload)

  -- `read_exact`
  unfoldable pub read_exact : ℕ → Bytes → Result (Bytes × Bytes) (ConnError CodecError)
  read_exact n stream =
      if ltb (length stream) n then err (io unexpected_eof) else ok (take n stream, drop n stream)

  -- `?` on the header's decoder
  abbrev pub of_frame : Result FrameHeader FrameError → Result FrameHeader (ConnError CodecError)
  of_frame (ok header) = ok header
  of_frame (err e) = err (frame e)

  abbrev pub read_payload : FrameHeader → Bytes → Result (Bytes × Bytes) (ConnError CodecError)
  read_payload header stream =
      if ltb 0 header.payload_len then read_exact header.payload_len stream else ok ([], stream)

  -- The frame, and the bytes after it.
  unfoldable pub recv : Bytes → Result (Frame × Bytes) (ConnError CodecError)
  recv stream = do
    (hdr, rest) ← read_exact header_len stream
    header ← of_frame (decode hdr)
    (payload, rest) ← read_payload header rest
    ok (record { header = header; payload = payload }, rest)
