-- ===== src/Server/Session/Gate.antt =====
-- crates/jet-server/src/jrp.rs: what a peer reaches before it is authenticated.
use jetrun.Prelude.{
  not, ◌&&◌, ◌≡◌, refl, ◌≢◌, ◌⊎◌, inl, inr, true, false, List, [], ◌∷◌, Bool-cases, All, All-append,
  Result, Bytes, ok, err, ℕ,
}
use mathlib.Core.Bool.{false≢true}
use jetrun.Proto.Frame.{MsgType, error, pong, auth, allowed_preauth}
use jetrun.Proto.Msg.{
  Auth, Ping, Invalid, ErrorMsg, Codec, bad_request, unauthenticated, auth_required, validate_auth,
}
use jetrun.Proto.Conn.{ConnError}
use jetrun.Proto.Conn.Transport.{Frame}
use jetrun.Proto.Conn.Handshake.{Outcome}
use jetrun.Server.State.{AuthError}
use jetrun.Server.Session.{
  Session, Reply, Next, resume, finish, Turn, Ended, error_body, refuse, error_reply, pinged,
  authenticated, auth_checked, auth_decoded, serve, turn, continued, run, greeted, handle,
}

-- A refusal that any peer may see: a bad request, a failed authentication, or the gate.
abbrev pub IsEarly : ℕ → Type 0
IsEarly code = (code ≡ bad_request) ⊎ ((code ≡ unauthenticated) ⊎ (code ≡ auth_required))

-- An answer to a peer that is not authenticated: a pong, or such a refusal.
abbrev pub IsPreauth : Reply → Type 0
IsPreauth r =
    (r.msg_type ≡ pong)
    ⊎ ((m : ErrorMsg) × (r.msg_type ≡ error) × (r.body ≡ error_body m) × IsEarly m.code)

abbrev StaysOut : {CodecError : Type 0} → Next CodecError → Type 0
StaysOut (resume s) = s.authenticated ≡ false
StaysOut (finish r) = Unit

-- The session stays unauthenticated, and says nothing else.
abbrev IsKept : {CodecError : Type 0} → Turn CodecError → Type 0
IsKept (sent, next) = All IsPreauth sent × StaysOut next

module _ (CodecError : Type 0) (s : Session) (out : s.authenticated ≡ false) (stream : ℕ) where
  refuse-IsKept :
      (code : ℕ) (message : Bytes)
      → IsEarly code
      → IsKept {CodecError = CodecError} (refuse s stream code message)
  unfolding refuse error_reply
  refuse-IsKept code message early =
      ((inr (record { code = code; message = message }, refl, refl, early), tt), out)

module _ {CodecError : Type 0} (codec : Codec CodecError)
    (authenticate_token : Bytes → Result (Unit {0}) AuthError) (show_invalid : Invalid → Bytes)
    (debug : MsgType → Bytes) where
  module _ (s : Session) (out : s.authenticated ≡ false) (stream : ℕ) where
    pinged-IsKept :
        (p : Result Ping CodecError)
        → IsKept (pinged codec authenticate_token show_invalid debug s stream p)
    pinged-IsKept (ok p) = ((inl refl, tt), out)
    pinged-IsKept (err e) = (tt, tt)

    authenticated-IsKept :
        (r : Result (Unit {0}) AuthError)
        → r ≢ ok tt
        → IsKept {CodecError = CodecError}
            (authenticated codec authenticate_token show_invalid debug s stream r)
    authenticated-IsKept (ok done) n = absurd (n refl)
    authenticated-IsKept (err e) n =
        refuse-IsKept CodecError s out stream unauthenticated _ (inr (inl refl))

    checked-IsKept :
        (m : Auth) (v : Result (Unit {0}) Invalid)
        → authenticate_token m.token ≢ ok tt
        → IsKept {CodecError = CodecError}
            (auth_checked codec authenticate_token show_invalid debug s stream m v)
    checked-IsKept m (ok valid) n = authenticated-IsKept (authenticate_token m.token) n
    checked-IsKept m (err e) n = refuse-IsKept CodecError s out stream bad_request _ (inl refl)

    decoded-IsKept :
        (p : Result Auth CodecError)
        → ((m : Auth) → p ≡ ok m → authenticate_token m.token ≢ ok tt)
        → IsKept (auth_decoded codec authenticate_token show_invalid debug s stream p)
    decoded-IsKept (ok m) n = checked-IsKept m (validate_auth m) (n m refl)
    decoded-IsKept (err e) n = (tt, tt)

    serve-IsKept :
        (payload : Bytes) (t : MsgType)
        → allowed_preauth t ≡ true
        → (t ≡ auth
            → (m : Auth) → codec.decode_auth payload ≡ ok m
            → authenticate_token m.token ≢ ok tt)
        → IsKept (serve codec authenticate_token show_invalid debug s stream payload t)
    unfolding serve allowed_preauth
    serve-IsKept payload MsgType.ping a n = pinged-IsKept (codec.decode_ping payload)
    serve-IsKept payload MsgType.auth a n = decoded-IsKept (codec.decode_auth payload) (n refl)
    serve-IsKept payload MsgType.submit_run a n = absurd (false≢true a)
    serve-IsKept payload MsgType.get_run a n = absurd (false≢true a)
    serve-IsKept payload MsgType.cancel_run a n = absurd (false≢true a)
    serve-IsKept payload MsgType.tail_logs a n = absurd (false≢true a)
    serve-IsKept payload MsgType.cas_query a n = absurd (false≢true a)
    serve-IsKept payload MsgType.goodbye a n = (tt, tt)
    serve-IsKept payload _ a n = refuse-IsKept CodecError s out stream bad_request _ (inl refl)

  -- The token of an authentication frame is not accepted.
  abbrev pub IsRefused : Frame → Type 0
  IsRefused f =
      f.header.msg_type ≡ auth
      → (m : Auth) → codec.decode_auth f.payload ≡ ok m
      → authenticate_token m.token ≢ ok tt

  abbrev pub IsOutside : Result Frame (ConnError CodecError) → Type 0
  IsOutside (ok f) = IsRefused f
  IsOutside (err e) = Unit

  turn-IsKept :
      (s : Session) (f : Frame)
      → s.authenticated ≡ false
      → IsRefused f
      → IsKept (turn codec authenticate_token show_invalid debug s f)
  unfolding turn
  turn-IsKept s f out n = elim (Bool-cases (allowed_preauth f.header.msg_type)) [
    | inl a ↦
        let g : (not s.authenticated && not (allowed_preauth f.header.msg_type)) ≡ false =
          rw (out, a) refl in
        rw g (serve-IsKept s out f.header.stream_id f.payload f.header.msg_type a n)
    | inr a ↦
        let g : (not s.authenticated && not (allowed_preauth f.header.msg_type)) ≡ true =
          rw (out, a) refl in
        rw g (refuse-IsKept CodecError s out f.header.stream_id auth_required _ (inr (inr refl)))
  ]

  continued-IsPreauth :
      (loop : Session → List Reply × Ended CodecError) (t : Turn CodecError)
      → IsKept t
      → ((s : Session) → s.authenticated ≡ false → All IsPreauth (loop s).0)
      → All IsPreauth (continued codec authenticate_token show_invalid debug loop t).0
  continued-IsPreauth loop (sent, resume s) k h = All-append IsPreauth sent (loop s).0 k.0 (h s k.1)
  continued-IsPreauth loop (sent, finish r) k h = k.0

  run-IsPreauth :
      (arrivals : List (Result Frame (ConnError CodecError))) (s : Session)
      → s.authenticated ≡ false
      → All IsOutside arrivals
      → All IsPreauth (run codec authenticate_token show_invalid debug arrivals s).0
  unfolding run
  run-IsPreauth [] s out n = tt
  run-IsPreauth (err e ∷ later) s out n = tt
  run-IsPreauth (ok f ∷ later) s out (n, ns) =
      continued-IsPreauth (run codec authenticate_token show_invalid debug later) _
        (turn-IsKept s f out n) (λ t o. run-IsPreauth later t o ns)

  greeted-IsPreauth :
      (later : List (Result Frame (ConnError CodecError))) (o : Outcome CodecError)
      → All IsOutside later
      → All IsPreauth (greeted codec authenticate_token show_invalid debug later o).replies
  greeted-IsPreauth later (ok hello, sent, conn) n = run-IsPreauth later _ refl n
  greeted-IsPreauth later (err e, sent, conn) n = tt

  -- Whatever a peer sends to a session, from the first frame on: as long as no token among its frames is
  -- accepted, it is told nothing after the handshake but pongs, bad requests, failed authentications and
  -- that it has to authenticate; no request is served.
  pub handle-IsPreauth :
      (agent session : Bytes) (arrivals : List (Result Frame (ConnError CodecError)))
      → All IsOutside arrivals
      → All IsPreauth
          (handle codec authenticate_token show_invalid debug agent session arrivals).replies
  unfolding handle
  handle-IsPreauth agent session [] n = tt
  handle-IsPreauth agent session (err e ∷ later) n = tt
  handle-IsPreauth agent session (ok f ∷ later) (n, ns) = greeted-IsPreauth later _ ns
