-- ===== src/Server/Session/Tests.antt =====
-- crates/jet-server/src/jrp.rs: sessions of a peer that is not authenticated, and of one that is.
use jetrun.Server.Session.Returns.{IsReturned, handle-IsReturned}
use jetrun.Prelude.{
  ◌≤◌, ◌<◌, ◌≡◌, refl, sym, ◌∙◌, ◌≢◌, inl, inr, true, false, List, [], ◌∷◌, ◌++◌, ltb,
  if◌then◌else◌, le→ltb, length, All, split_once, splitn, Result, Bytes, codes, bytes_eq, ok, err,
  ℕ,
}
use jetrun.Server.State.Tokens.{authenticate_token-IsRefused}
use jetrun.Proto.Frame.{
  MsgType, hello, ping, pong, auth, submit_run, new_header, allowed_preauth, no_flags,
}
use jetrun.Proto.Msg.{
  Invalid, auth_required, unauthenticated, validate_auth, validate_submit_run, validate_hello,
  nonempty_bounded, bounded,
}
use jetrun.Proto.Msg.Samples.{sample_codec}
use jetrun.Proto.Conn.{ConnError, io, unexpected_eof}
use jetrun.Proto.Conn
use jetrun.Proto.Conn.Transport.{Frame}
use jetrun.Proto.Conn.Handshake.{server_handshake, negotiate, is_hello}
use jetrun.Server.State.{AuthError, unknown, malformed, authenticate_token}
use jetrun.Server.Session.{
  Session, Reply, pong_body, waiting, returned, refuse, error_reply, serve, turn, run, handle,
}
use jetrun.Server.Session.Gate.{IsPreauth, handle-IsPreauth}
use jetrun.Server.Session.Answers.{streams, streams_of, arrived, run-answers}
use jetrun.Server.Session.Bounded.{run-bounded}

abbrev show : Invalid → Bytes
show e = codes "invalid"

abbrev kind : MsgType → Bytes
kind t = codes "kind"

abbrev frame : MsgType → ℕ → Bytes → Frame
frame t stream payload = record { header = new_header t stream (length payload); payload = payload }

-- One token is known.
abbrev check : Bytes → Result (Unit {0}) AuthError
check token = if bytes_eq token (codes "jetr_a_b") then ok tt else err unknown

abbrev arrivals : List (Result Frame (ConnError (Unit {0})))
arrivals =
    ok (frame hello 1 (codes "jet"))
    ∷ ok (frame submit_run 3 (codes "x"))
    ∷ ok (frame ping 5 (7 ∷ []))
    ∷ ok (frame auth 7 (codes "jetr_x_y"))
    ∷ err (io unexpected_eof)
    ∷ []

program : Unit {0}
unfolding handle server_handshake negotiate is_hello validate_hello validate_auth
    validate_submit_run nonempty_bounded bounded run turn serve refuse error_reply allowed_preauth
    new_header authenticate_token splitn split_once bytes_eq
program = tt

abbrev transcript_of :
    (Bytes → Result (Unit {0}) AuthError) → List (Result Frame (ConnError (Unit {0}))) → List Reply
transcript_of c frames = (handle sample_codec c show kind [] [] frames).replies

-- Not authenticated: the request is refused at the gate, the ping is answered, the token is not known.
outside :
    transcript_of authenticate_token arrivals
    ≡ error_reply 3 auth_required (codes "authenticate before issuing this request")
      ∷ record { msg_type = pong; stream_id = 5; body = pong_body 7; flags = no_flags }
      ∷ error_reply 7 unauthenticated (codes "authentication failed")
      ∷ []
unfolding program
outside = refl

-- The peer hangs up, which ends the session without an error.
hangs_up :
    (handle sample_codec authenticate_token show kind [] [] arrivals).ended ≡ returned (ok tt)
unfolding program
hangs_up = refl

-- Behind the gate a request is served.
inside :
    (run sample_codec check show kind
      (ok (frame auth 1 (codes "jetr_a_b")) ∷ ok (frame submit_run 3 (codes "x")) ∷ [])
      (record { conn = Conn.server; authenticated = false })).1
    ≡ waiting (record { conn = Conn.server; authenticated = true })
unfolding program
inside = refl

abbrev requests : List Frame
requests = frame auth 1 (codes "jetr_a_b") ∷ frame submit_run 3 (codes "x") ∷ frame ping 5 [] ∷ []

abbrev start : Session
start = record { conn = Conn.server; authenticated = false }

no_entry : (token : Bytes) → authenticate_token token ≢ ok tt
no_entry token h = elim (authenticate_token-IsRefused token) [
  | inl (p, t) ↦ unlike unknown (sym p ∙ h)
  | inr (p, t) ↦ unlike malformed (sym p ∙ h)
]
  where
    unlike : (e : AuthError) → ◌≢◌ {A = Result (Unit {0}) AuthError} (err e) (ok tt)
    unlike e h = cc

handle-IsPreauth_example : All IsPreauth (transcript_of authenticate_token arrivals)
handle-IsPreauth_example =
    handle-IsPreauth sample_codec authenticate_token show kind [] [] arrivals (
      λ t m e. no_entry m.token,
      (
        λ t m e. no_entry m.token,
        (λ t m e. no_entry m.token, (λ t m e. no_entry m.token, (tt, tt))),
      ),
    )

run-answers_example :
    (answers : List Reply) × (t : Session) × (run sample_codec check show kind
        (arrived requests [])
        start
      ≡ (
        answers ++ (run sample_codec check show kind [] t).0,
        (run sample_codec check show kind [] t).1,
      ))
    × (streams answers ≡ streams_of requests)
unfolding new_header
run-answers_example =
    run-answers sample_codec check show kind requests [] start
      ((_, refl), ((_, refl), ((_, refl), tt)))

-- A check that also knows a token which is too long.
abbrev lenient : Bytes → Result (Unit {0}) AuthError
lenient token = if ltb 512 (length token) then ok tt else check token

agrees : (token : Bytes) → 0 < length token → length token ≤ 512 → check token ≡ lenient token
agrees token a b = rw (le→ltb 512 (length token) b) refl

run-bounded_example :
    run sample_codec check show kind arrivals start
    ≡ run sample_codec lenient show kind arrivals start
run-bounded_example = run-bounded sample_codec check lenient show kind agrees arrivals start

handle-IsReturned_example :
    IsReturned
      (handle sample_codec check show kind [] [] (
        (ok (frame hello 1 (codes "jet")) ∷ ok (frame ping 3 []) ∷ [])
        ++ err (io unexpected_eof) ∷ [])).ended
handle-IsReturned_example =
    handle-IsReturned sample_codec check show kind (io unexpected_eof) [] [] []
      (ok (frame hello 1 (codes "jet")) ∷ ok (frame ping 3 []) ∷ [])
