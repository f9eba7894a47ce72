-- ===== src/Proto/Conn/Handshake/Negotiation.antt =====
-- crates/jet-proto/src/conn.rs: the handshake agrees on the highest common version.
use jetrun.Prelude.{
  Option, some, ◌⊎◌, Bool, ℕ, ◌≤◌, ◌≡◌, refl, true, false, ◌||◌, arith, ltb, Bytes, ok, err,
}
use Prim.Native.Nat.{min}
use jetrun.Proto.Frame.{version, min_version}
use jetrun.Proto.Conn.{JrpConn, ConnError}
use jetrun.Proto.Msg.{Hello, HelloAck, validate_hello}
use jetrun.Proto.Conn.Handshake.{
  Received, Outcome, Sent, sent_ack, delivers, negotiate, server_handshake, is_hello,
}

-- A version that the server and the peer both speak.
abbrev pub IsCommon : Hello → ℕ → Type 0
IsCommon h v = (min_version ≤ v) × (v ≤ version) × (h.min_version ≤ v) × (v ≤ h.max_version)

-- The connection has the highest common version, and the peer's capabilities.
abbrev pub IsNegotiated : Hello → JrpConn → Type 0
IsNegotiated h after =
    (IsCommon h after.version × ((w : ℕ) → IsCommon h w → w ≤ after.version))
    × (after.peer_caps ≡ h.capabilities)

-- A success is negotiated. A failure leaves the connection as it was, unless it is the failure of the
-- acknowledgement's send.
abbrev pub IsAgreed :
    {CodecError : Type 0}
    → (Sent → Option (ConnError CodecError))
    → JrpConn
    → Outcome CodecError
    → Type 0
IsAgreed fails conn (ok h, sent, after) = IsNegotiated h after
IsAgreed fails conn (err e, sent, after) =
    (after ≡ conn)
    ⊎ ((h : Hello) × (stream : ℕ) × (ack : HelloAck) × (fails (sent_ack stream ack) ≡ some e)
        × (ack.version ≡ after.version)
        × IsNegotiated h after)

not_below : (a b : ℕ) → b ≤ a → ltb a b ≡ false
not_below a b h = ground arith

-- The server's test of a peer's range.
abbrev is_apart : Hello → Bool
is_apart h =
    ltb (min version h.max_version) min_version || ltb (min version h.max_version) h.min_version

passes : (h : Hello) (w : ℕ) → IsCommon h w → is_apart h ≡ false
passes h w c =
    rw
      (
        not_below (min version h.max_version) min_version (omega (arith, c.0, c.1, c.3)),
        not_below (min version h.max_version) h.min_version (omega (arith, c.1, c.2, c.3)),
      )
      refl

-- A valid Hello with a version in common is answered: the handshake succeeds on it, if its send does.
pub server_handshake-common :
    (CodecError : Type 0) (conn : JrpConn) (agent session : Bytes) (r : Received CodecError)
    (h : Hello) (w : ℕ)
    → is_hello r.msg_type ≡ true
    → r.payload ≡ ok h
    → validate_hello h ≡ ok tt
    → IsCommon h w
    → (server_handshake delivers conn agent session r).0 ≡ ok h
unfolding server_handshake negotiate
server_handshake-common CodecError conn agent session r h w hello payload valid common =
    rw (hello, payload, valid, passes h w common) refl
