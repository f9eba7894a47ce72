-- ===== src/Proto/Conn/Transport/Delivery.antt =====
-- crates/jet-proto/src/conn.rs: what is sent is received, frame by frame.
use jetrun.Prelude.{
  zero, suc, ◌^◌, ◌≤◌, ◌<◌, ◌≡◌, refl, List, [], ◌∷◌, ◌++◌, map, arith, lt→ltb, le→ltb, length,
  length-append, take-append, drop-append, All, Result, ◌>>=◌, Bytes, ok, err, ℕ,
}
use mathlib.Core.List.{append_assoc}
use jetrun.Proto.Frame.{MsgType, FrameHeader, new_header, encode, header_len, max_payload, version}
use jetrun.Proto.Frame.RoundTrip.{IsValid, decode-encode_header}
use jetrun.Proto.Conn.{JrpConn, ConnError, payload_too_large}
use jetrun.Proto.Conn.Transport.{Frame, stamped, send, read_exact, read_payload, recv}

length-encode_header : (h : FrameHeader) → length (encode h) ≡ header_len
unfolding encode
length-encode_header h = refl

module _ {CodecError : Type 0} where
  read_exact-append :
      (xs ys : Bytes) → read_exact {CodecError = CodecError} (length xs) (xs ++ ys) ≡ ok (xs, ys)
  unfolding read_exact
  read_exact-append xs ys =
      rw
        (
          le→ltb (length (xs ++ ys)) (length xs) (omega (arith, length-append xs ys)),
          take-append xs ys,
          drop-append xs ys,
        )
        refl

  read_header :
      (h : FrameHeader) (rest : Bytes)
      → read_exact {CodecError = CodecError} header_len (encode h ++ rest) ≡ ok (encode h, rest)
  read_header h rest = rw (← length-encode_header h) (read_exact-append (encode h) rest)

  read_payload-append :
      (h : FrameHeader) (p rest : Bytes)
      → h.payload_len ≡ length p
      → read_payload {CodecError = CodecError} h (p ++ rest) ≡ ok (p, rest)
  read_payload-append h [] rest e = rw e refl
  read_payload-append h (b ∷ p) rest e =
      rw (e, lt→ltb 0 (suc (length p)) (omega arith)) (read_exact-append (b ∷ p) rest)

  -- A frame on the stream is taken off it whole, and what follows is left.
  recv-frame :
      (h : FrameHeader) (p rest : Bytes)
      → IsValid h
      → h.payload_len ≡ length p
      → recv {CodecError = CodecError} (encode h ++ (p ++ rest))
        ≡ ok (record { header = h; payload = p }, rest)
  unfolding recv
  recv-frame h p rest v e =
      rw (read_header h (p ++ rest), decode-encode_header h v, read_payload-append h p rest e) refl

-- A message that a connection may be asked to send, and the frame that it makes.
pub record Message : Type 0 where
  pub msg_type : MsgType
  pub stream_id : ℕ
  pub payload : Bytes
  pub flags : ℕ

-- The stream and the flags fit their machine types, and the payload is within the limit.
pub record IsSendable (m : Message) : Type 0 where
  pub stream_u32 : m.stream_id < 2 ^ 32
  pub flags_u16 : m.flags < 2 ^ 16
  pub payload_fits : length m.payload ≤ max_payload

abbrev pub frame_of : JrpConn → Message → Frame
frame_of conn m = record {
  header = stamped conn m.msg_type m.stream_id m.payload m.flags;
  payload = m.payload;
}

stamped-IsValid :
    (conn : JrpConn) (m : Message)
    → conn.version ≡ version
    → IsSendable m
    → IsValid (frame_of conn m).header × ((frame_of conn m).header.payload_len ≡ length m.payload)
unfolding new_header
stamped-IsValid conn m spoken s = (
  record {
    spoken = spoken;
    flags_u16 = s.flags_u16;
    stream_u32 = s.stream_u32;
    payload_fits = s.payload_fits;
  },
  refl,
)

module _ {CodecError : Type 0} (conn : JrpConn) where
  abbrev pub send_message : Message → Result Bytes (ConnError CodecError)
  send_message m = send conn m.msg_type m.stream_id m.payload m.flags

  -- The bytes of several messages, sent one after the other.
  unfoldable pub send_all : List Message → Result Bytes (ConnError CodecError)
  send_all [] = ok []
  send_all (m ∷ ms) = do sent ← send_message m; more ← send_all ms; ok (sent ++ more)

  -- A sendable message is written as its frame.
  pub send-sendable :
      (m : Message)
      → IsSendable m
      → send_message m ≡ ok (encode (frame_of conn m).header ++ m.payload)
  unfolding send
  send-sendable m s = rw (le→ltb _ _ s.payload_fits) refl

  pub send-too_large :
      (m : Message)
      → max_payload < length m.payload
      → send_message m ≡ err (payload_too_large (length m.payload))
  unfolding send
  send-too_large m h = rw (lt→ltb _ _ h) refl

-- As many frames as are asked for, and the bytes after them.
unfoldable pub recv_all :
    {CodecError : Type 0} → ℕ → Bytes → Result (List Frame × Bytes) (ConnError CodecError)
recv_all zero stream = ok ([], stream)
recv_all (suc n) stream = do
  (f, rest) ← recv stream
  (fs, rest) ← recv_all n rest
  ok (f ∷ fs, rest)

module _ {CodecError : Type 0} (conn : JrpConn) (spoken : conn.version ≡ version) where
  -- When the connection speaks this build's version: any sequence of messages that are each sendable is
  -- sent without an error, and the bytes written, whatever follows them on the stream, are received as
  -- the same messages in the same order, kinds, streams, flags and payloads unchanged, with what follows
  -- left on the stream.
  pub recv_all-send_all :
      (ms : List Message) (rest : Bytes)
      → All IsSendable ms
      → (sent : Bytes) × (send_all {CodecError = CodecError} conn ms ≡ ok sent)
        × (recv_all {CodecError = CodecError} (length ms) (sent ++ rest)
            ≡ ok (map (frame_of conn) ms, rest))
  unfolding send_all recv_all
  recv_all-send_all [] rest h = ([], refl, refl)
  recv_all-send_all (m ∷ ms) rest (s, h) =
      let (more, a, b) = recv_all-send_all ms rest h in
      let (valid, len) = stamped-IsValid conn m spoken s in
      let header = (frame_of conn m).header in
      (
        (encode header ++ m.payload) ++ more,
        rw (send-sendable {CodecError = CodecError} conn m s, a) refl,
        rw
            (
              append_assoc (encode header ++ m.payload) more rest,
              append_assoc (encode header) m.payload (more ++ rest),
              recv-frame {CodecError = CodecError} header m.payload (more ++ rest) valid len,
              b,
            )
            refl,
      )
