-- ===== src/Server/Session/Answers.antt =====
-- crates/jet-server/src/jrp.rs: every request is answered.
use jetrun.Prelude.{
  ◌≡◌, refl, inl, inr, not, ◌&&◌, List, [], ◌∷◌, ◌++◌, map, Bool-cases, All, Result, Bytes, ok, err,
  ℕ,
}
use jetrun.Proto.Frame.{MsgType, allowed_preauth}
use jetrun.Proto.Msg.{Auth, Invalid, Codec, auth_required, validate_auth, validate_submit_run}
use jetrun.Proto.Conn.{ConnError}
use jetrun.Proto.Conn.Transport.{Frame}
use jetrun.Server.State.{AuthError}
use jetrun.Server.Session.{
  Session, Reply, resume, Turn, refuse, error_reply, authenticated, auth_checked, submit_checked,
  serve, turn, run,
}

-- One reply, on the frame's stream, and the session goes on.
abbrev IsAnswer : {CodecError : Type 0} → ℕ → Turn CodecError → Type 0
IsAnswer {CodecError} stream t =
    (r : Reply) × (s : Session) × (t ≡ (r ∷ [], resume s)) × (r.stream_id ≡ stream)

abbrev Decodes : {A CodecError : Type 0} → Result A CodecError → Type 0
Decodes {A} r = (a : A) × (r ≡ ok a)

module _ {CodecError : Type 0} (s : Session) (stream : ℕ) where
  refuse-IsAnswer :
      (code : ℕ) (message : Bytes)
      → IsAnswer {CodecError = CodecError} stream (refuse s stream code message)
  unfolding refuse error_reply
  refuse-IsAnswer code message = (error_reply stream code message, s, refl, refl)

abbrev pub streams_of : List Frame → List ℕ
streams_of = map (λ f. f.header.stream_id)

abbrev pub streams : List Reply → List ℕ
streams = map (λ r. r.stream_id)

abbrev pub arrived :
    {CodecError : Type 0}
    → List Frame
    → List (Result Frame (ConnError CodecError))
    → List (Result Frame (ConnError CodecError))
arrived [] later = later
arrived (f ∷ fs) later = ok f ∷ arrived fs later

module _ {CodecError : Type 0} (codec : Codec CodecError) where
  -- The payload of a frame is one of its kind, and it is not a goodbye.
  abbrev pub IsRequest : MsgType → Bytes → Type 0
  IsRequest MsgType.ping payload = Decodes (codec.decode_ping payload)
  IsRequest MsgType.auth payload = Decodes (codec.decode_auth payload)
  IsRequest MsgType.submit_run payload = Decodes (codec.decode_submit_run payload)
  IsRequest MsgType.goodbye payload = ⊥
  IsRequest _ payload = Unit

module _ {CodecError : Type 0} (codec : Codec CodecError)
    (authenticate_token : Bytes → Result (Unit {0}) AuthError) (show_invalid : Invalid → Bytes)
    (debug : MsgType → Bytes) where
  module _ (s : Session) (stream : ℕ) where
    authenticated-IsAnswer :
        (r : Result (Unit {0}) AuthError)
        → IsAnswer {CodecError = CodecError} stream
            (authenticated codec authenticate_token show_invalid debug s stream r)
    authenticated-IsAnswer (ok done) = (_, _, refl, refl)
    authenticated-IsAnswer (err e) = refuse-IsAnswer s stream _ _

    checked-IsAnswer :
        (m : Auth) (v : Result (Unit {0}) Invalid)
        → IsAnswer {CodecError = CodecError} stream
            (auth_checked codec authenticate_token show_invalid debug s stream m v)
    checked-IsAnswer m (ok valid) = authenticated-IsAnswer (authenticate_token m.token)
    checked-IsAnswer m (err e) = refuse-IsAnswer s stream _ _

    submit-IsAnswer :
        (v : Result (Unit {0}) Invalid)
        → IsAnswer {CodecError = CodecError} stream
            (submit_checked codec authenticate_token show_invalid debug s stream v)
    submit-IsAnswer (ok valid) = refuse-IsAnswer s stream _ _
    submit-IsAnswer (err e) = refuse-IsAnswer s stream _ _

    serve-IsAnswer :
        (payload : Bytes) (t : MsgType)
        → IsRequest codec t payload
        → IsAnswer stream (serve codec authenticate_token show_invalid debug s stream payload t)
    unfolding serve
    serve-IsAnswer payload MsgType.ping (p, e) = rw e (_, _, refl, refl)
    serve-IsAnswer payload MsgType.auth (m, e) = rw e (checked-IsAnswer m (validate_auth m))
    serve-IsAnswer payload MsgType.submit_run (m, e) =
        rw e (submit-IsAnswer (validate_submit_run m))
    serve-IsAnswer payload MsgType.get_run h = refuse-IsAnswer s stream _ _
    serve-IsAnswer payload MsgType.cancel_run h = refuse-IsAnswer s stream _ _
    serve-IsAnswer payload MsgType.tail_logs h = refuse-IsAnswer s stream _ _
    serve-IsAnswer payload MsgType.cas_query h = refuse-IsAnswer s stream _ _
    serve-IsAnswer payload MsgType.goodbye h = absurd h
    serve-IsAnswer payload _ h = refuse-IsAnswer s stream _ _

  turn-IsAnswer :
      (s : Session) (f : Frame)
      → IsRequest codec f.header.msg_type f.payload
      → IsAnswer f.header.stream_id (turn codec authenticate_token show_invalid debug s f)
  unfolding turn
  turn-IsAnswer s f h =
      elim (Bool-cases (not s.authenticated && not (allowed_preauth f.header.msg_type))) [
        | inl g ↦ rw g (refuse-IsAnswer s f.header.stream_id auth_required _)
        | inr g ↦ rw g (serve-IsAnswer s f.header.stream_id f.payload f.header.msg_type h)
      ]

  -- Authenticated or not, a session answers every frame that is not a goodbye and whose payload decodes:
  -- with one reply each, in their order, on their streams; and then it goes on with what arrives later.
  pub run-answers :
      (fs : List Frame) (later : List (Result Frame (ConnError CodecError))) (s : Session)
      → All (λ f. IsRequest codec f.header.msg_type f.payload) fs
      → (answers : List Reply) × (t : Session) × (run codec authenticate_token show_invalid debug
            (arrived fs later)
            s
          ≡ (
            answers ++ (run codec authenticate_token show_invalid debug later t).0,
            (run codec authenticate_token show_invalid debug later t).1,
          ))
        × (streams answers ≡ streams_of fs)
  unfolding run
  run-answers [] later s h = ([], s, refl, refl)
  run-answers (f ∷ fs) later s (h, hs) =
      let (r, t, e, q) = turn-IsAnswer s f h in
      let (answers, u, a, b) = run-answers fs later t hs in
      (r ∷ answers, u, rw (e, a) refl, rw (q, b) refl)
