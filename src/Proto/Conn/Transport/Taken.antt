-- ===== src/Proto/Conn/Transport/Taken.antt =====
-- crates/jet-proto/src/conn.rs: what a received frame takes off the stream.
use jetrun.Prelude.{
  ◌≤◌, ◌≡◌, refl, sym, ap, subst, ◌≢◌, inl, inr, [], ◌++◌, arith, ltb, ltb→le, Bool-cases, length,
  take, drop, length-take, append-take-drop, All, All-take, Result, >>=-eq-ok, Result-cases, Bytes,
  IsByte, ok, err, ℕ,
}
use jetrun.Proto.Frame.{FrameHeader, encode, decode, header_len, max_payload}
use jetrun.Proto.Frame.RoundTrip.{encode-decode_header, decode-Reads}
use jetrun.Proto.Conn.{ConnError, io, unexpected_eof}
use jetrun.Proto.Conn.Transport.{Frame, read_exact, of_frame, read_payload, recv}

module _ {CodecError : Type 0} where
  ok-injective :
      {A : Type 0} {a b : A} → ◌≡◌ {A = Result A (ConnError CodecError)} (ok a) (ok b) → a ≡ b
  ok-injective h = cc

  -- An exact read takes the first bytes.
  read_exact-ok :
      (n : ℕ) (stream got rest : Bytes)
      → read_exact {CodecError = CodecError} n stream ≡ ok (got, rest)
      → (got ≡ take n stream) × (got ++ rest ≡ stream) × (length got ≡ n)
  unfolding read_exact
  read_exact-ok n stream got rest h = elim (Bool-cases (ltb (length stream) n)) [
    | inl short ↦ absurd (err≢ok (rw short at h))
    | inr enough ↦
        let e : (take n stream, drop n stream) ≡ (got, rest) = ok-injective (rw enough at h) in
        let a : got ≡ take n stream = sym (ap (λ p. p.0) e) in
        let b : rest ≡ drop n stream = sym (ap (λ p. p.1) e) in
        (a, rw (a, b) (append-take-drop n stream), rw a (length-take n stream (ltb→le _ _ enough)))
  ]
    where
      err≢ok :
          ◌≢◌ {A = Result (Bytes × Bytes) (ConnError CodecError)}
            (err (io unexpected_eof))
            (ok (got, rest))
      err≢ok h = cc

  read_payload-ok :
      (header : FrameHeader) (stream got rest : Bytes)
      → read_payload {CodecError = CodecError} header stream ≡ ok (got, rest)
      → (got ++ rest ≡ stream) × (length got ≡ header.payload_len)
  read_payload-ok header stream got rest h = elim (Bool-cases (ltb 0 header.payload_len)) [
    | inl filled ↦
        let (a, b, c) = read_exact-ok header.payload_len stream got rest (rw filled at h) in (b, c)
    | inr void ↦
        let e : ◌≡◌ {A = Bytes × Bytes} ([], stream) (got, rest) = ok-injective (rw void at h) in
        let a : got ≡ [] = sym (ap (λ p. p.0) e) in
        let b : rest ≡ stream = sym (ap (λ p. p.1) e) in
        (rw (a, b) refl, rw a (omega (arith, ltb→le _ _ void)))
  ]

  of_frame-ok :
      (b : Bytes) (h : FrameHeader)
      → of_frame {CodecError = CodecError} (decode b) ≡ ok h
      → decode b ≡ ok h
  of_frame-ok b h e = elim (Result-cases (decode b)) [
    | inl (a, p) ↦ rw p (ap ok (ok-injective (rw p at e)))
    | inr (x, p) ↦ absurd (err≢ok x (rw p at e))
  ]
    where
      err≢ok :
          (x : _)
          → ◌≢◌ {A = Result FrameHeader (ConnError CodecError)} (err (ConnError.frame x)) (ok h)
      err≢ok x h = cc

  -- Whatever bytes arrive: a frame that is received has a payload of exactly the length that its header
  -- announces, which is within the limit, and the stream was that header's encoding, the payload, and
  -- the bytes that are left; none is skipped, and none is read twice.
  pub recv-takes :
      (stream : Bytes) (f : Frame) (rest : Bytes)
      → All IsByte stream
      → recv {CodecError = CodecError} stream ≡ ok (f, rest)
      → (stream ≡ encode f.header ++ (f.payload ++ rest))
        × (length f.payload ≡ f.header.payload_len)
        × (f.header.payload_len ≤ max_payload)
  unfolding recv
  recv-takes stream f rest bytes h =
      let ((hdr, after), a, h) = >>=-eq-ok (read_exact header_len stream) _ h in
      let (header, b, h) = >>=-eq-ok (of_frame (decode hdr)) _ h in
      let ((payload, left), c, h) = >>=-eq-ok (read_payload header after) _ h in
      let e : ◌≡◌ {A = Frame × Bytes} (record { header = header; payload = payload }, left)
          (f, rest) =
        ok-injective h in
      let (first, whole, sixteen) = read_exact-ok header_len stream hdr after a in
      let (split, len) = read_payload-ok header after payload left c in
      let d = of_frame-ok hdr header b in
      let same : encode header ≡ hdr =
        encode-decode_header hdr header sixteen (rw first (All-take IsByte header_len stream bytes))
          d in
      let eq : stream ≡ encode header ++ (payload ++ left) = rw (same, split) (sym whole) in
      subst
        (λ (p : Frame × Bytes).
          (stream ≡ encode p.0.header ++ (p.0.payload ++ p.1))
          × (length p.0.payload ≡ p.0.header.payload_len)
          × (p.0.header.payload_len ≤ max_payload))
        e (eq, len, (decode-Reads hdr header d).payload_bounded)
