-- ===== src/Server/Session/Bounded.antt =====
-- crates/jet-server/src/jrp.rs: no oversized token is checked.
use jetrun.Prelude.{
  ◌≤◌, ◌<◌, ◌≡◌, refl, inl, inr, List, [], ◌∷◌, length, Result, Result-cases, Bytes, ok, err, ℕ,
}
use jetrun.Proto.Frame.{MsgType}
use jetrun.Proto.Msg.{
  Auth, Invalid, Codec, validate, authenticate, validate_auth, validate_submit_run,
}
use jetrun.Proto.Msg.Limits.{validate-IsWithin}
use jetrun.Proto.Conn.{ConnError}
use jetrun.Proto.Conn.Transport.{Frame}
use jetrun.Server.State.{AuthError}
use jetrun.Server.Session.{
  Session, Reply, resume, finish, Turn, Ended, auth_checked, auth_decoded, submit_checked, serve,
  turn, continued, run,
}

-- Two checks that agree on the tokens of 1 to 512 bytes.
module _ {CodecError : Type 0} (codec : Codec CodecError)
    (check other : Bytes → Result (Unit {0}) AuthError) (show_invalid : Invalid → Bytes)
    (debug : MsgType → Bytes)
    (agree : (token : Bytes)
      → 0 < length token
      → length token ≤ 512
      → check token ≡ other token) where
  valid-bounded :
      (m : Auth) → validate_auth m ≡ ok tt → (0 < length m.token) × (length m.token ≤ 512)
  unfolding validate
  valid-bounded m h = (validate-IsWithin (authenticate m)).0 h

  checked-same :
      (s : Session) (stream : ℕ) (m : Auth)
      → auth_checked codec check show_invalid debug s stream m (validate_auth m)
        ≡ auth_checked codec other show_invalid debug s stream m (validate_auth m)
  checked-same s stream m = elim (Result-cases (validate_auth m)) [
    | inl (done, p) ↦ let (a, b) = valid-bounded m p in rw (p, agree m.token a b) refl
    | inr (e, p) ↦ rw p refl
  ]

  decoded-same :
      (s : Session) (stream : ℕ) (p : Result Auth CodecError)
      → auth_decoded codec check show_invalid debug s stream p
        ≡ auth_decoded codec other show_invalid debug s stream p
  decoded-same s stream (ok m) = checked-same s stream m
  decoded-same s stream (err e) = refl

  serve-same :
      (s : Session) (stream : ℕ) (payload : Bytes) (t : MsgType)
      → serve codec check show_invalid debug s stream payload t
        ≡ serve codec other show_invalid debug s stream payload t
  unfolding serve
  serve-same s stream payload MsgType.auth = decoded-same s stream (codec.decode_auth payload)
  serve-same s stream payload MsgType.ping = elim (Result-cases (codec.decode_ping payload)) [
    | inl (a, p) ↦ rw p refl
    | inr (e, p) ↦ rw p refl
  ]
  serve-same s stream payload MsgType.submit_run =
      elim (Result-cases (codec.decode_submit_run payload)) [
        | inl (a, p) ↦ rw p (checked (validate_submit_run a))
        | inr (e, p) ↦ rw p refl
      ]
    where
      checked :
          (v : Result (Unit {0}) Invalid)
          → submit_checked codec check show_invalid debug s stream v
            ≡ submit_checked codec other show_invalid debug s stream v
      checked (ok done) = refl
      checked (err e) = refl
  serve-same s stream payload _ = refl

  turn-same :
      (s : Session) (f : Frame)
      → turn codec check show_invalid debug s f ≡ turn codec other show_invalid debug s f
  unfolding turn
  turn-same s f = rw (serve-same s f.header.stream_id f.payload f.header.msg_type) refl

  continued-same :
      (loop again : Session → List Reply × Ended CodecError) (t : Turn CodecError)
      → ((s : Session) → loop s ≡ again s)
      → continued codec check show_invalid debug loop t
        ≡ continued codec other show_invalid debug again t
  continued-same loop again (sent, resume s) h = rw (h s) refl
  continued-same loop again (sent, finish r) h = refl

  -- No token that is empty or longer than 512 bytes reaches the check, whatever a peer sends: two checks
  -- that agree on all others make the same session, in what it sends and in how it ends.
  pub run-bounded :
      (arrivals : List (Result Frame (ConnError CodecError))) (s : Session)
      → run codec check show_invalid debug arrivals s
        ≡ run codec other show_invalid debug arrivals s
  unfolding run
  run-bounded [] s = refl
  run-bounded (err e ∷ later) s = refl
  run-bounded (ok f ∷ later) s =
      rw (turn-same s f)
        (continued-same _ _ (turn codec other show_invalid debug s f) (run-bounded later))
