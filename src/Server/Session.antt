-- ===== src/Server/Session.antt =====
-- crates/jet-server/src/jrp.rs: a JRP session, from the handshake on. What the peer sends is the list
-- of what `recv` returned so far; the server's own sends do not fail, in the handshake either. How an
-- invalid message and a message kind are written as text (thiserror, `Debug`) are parameters, and so is
-- the codec (rkyv).
pub mod Gate
pub mod Answers
pub mod Bounded
pub mod Returns
mod Tests
use jetrun.Proto.Frame.{
  end_stream, no_flags, MsgType, error, ping, pong, auth, auth_ok, submit_run, get_run, cancel_run,
  tail_logs, cas_query, goodbye, allowed_preauth,
}
use jetrun.Prelude.{
  ℕ, Bool, true, false, not, ◌&&◌, List, [], ◌∷◌, ◌++◌, if◌then◌else◌, Result, ok, err, Bytes,
  codes,
}
use jetrun.Proto.Msg.{
  Hello, Invalid, Auth, SubmitRun, Ping, AuthOk, ErrorMsg, Codec, internal, bad_request,
  unauthenticated, auth_required, validate_auth, validate_submit_run,
}
use jetrun.Proto.Conn.{JrpConn, ConnError, io, unexpected_eof, connection_reset}
use jetrun.Proto.Conn
use jetrun.Proto.Conn.Transport.{Frame}
use jetrun.Proto.Conn.Handshake.{delivers, Received, server_handshake}
use jetrun.Proto.Conn.Handshake
use jetrun.Server.State.{AuthError}

-- Without the peer's name, which is only logged.
pub record Session : Type 0 where
  pub conn : JrpConn
  pub authenticated : Bool

pub data Body : Type 0 where
  pong_body : ℕ → Body
  auth_ok_body : AuthOk → Body
  error_body : ErrorMsg → Body

-- A frame that the server sends.
pub record Reply : Type 0 where
  pub msg_type : MsgType
  pub stream_id : ℕ
  pub body : Body
  pub flags : ℕ

pub data SessionError (CodecError : Type 0) : Type 0 where
  conn_error : ConnError CodecError → SessionError CodecError
  codec_error : CodecError → SessionError CodecError

-- How a turn of the loop ends: with the next one, or with the session.
pub data Next (CodecError : Type 0) : Type 0 where
  resume : Session → Next CodecError
  finish : Result (Unit {0}) (SessionError CodecError) → Next CodecError

abbrev pub Turn : Type 0 → Type 0
Turn CodecError = List Reply × Next CodecError

-- What a session has come to: it waits for the peer, or it has returned.
pub data Ended (CodecError : Type 0) : Type 0 where
  waiting : Session → Ended CodecError
  returned : Result (Unit {0}) (SessionError CodecError) → Ended CodecError

-- `send_error`
unfoldable pub error_reply : ℕ → ℕ → Bytes → Reply
error_reply stream_id code message = record {
  msg_type = error;
  stream_id = stream_id;
  body = error_body (record { code = code; message = message });
  flags = end_stream;
}

module _ {CodecError : Type 0} where
  -- An error is sent, and the session goes on.
  unfoldable pub refuse : Session → ℕ → ℕ → Bytes → Turn CodecError
  refuse s stream_id code message = (error_reply stream_id code message ∷ [], resume s)

  -- A payload that does not decode ends the session.
  abbrev pub broken : CodecError → Turn CodecError
  broken e = ([], finish (err (codec_error e)))

module _ {CodecError : Type 0} (codec : Codec CodecError)
    (authenticate_token : Bytes → Result (Unit {0}) AuthError) (show_invalid : Invalid → Bytes)
    (debug : MsgType → Bytes) where
  abbrev pub pinged : Session → ℕ → Result Ping CodecError → Turn CodecError
  pinged s stream_id (ok p) = (
    record { msg_type = pong; stream_id = stream_id; body = pong_body p.nonce; flags = no_flags }
        ∷ [],
    resume s,
  )
  pinged s stream_id (err e) = broken e

  abbrev pub authenticated : Session → ℕ → Result (Unit {0}) AuthError → Turn CodecError
  authenticated s stream_id (ok done) = (
    record {
      msg_type = auth_ok;
      stream_id = stream_id;
      body = auth_ok_body (record {
        org = [];
        principal_kind = codes "service_account";
        principal_id = [];
        permissions = [];
      });
      flags = end_stream;
    }
        ∷ [],
    resume (record s { authenticated = true }),
  )
  authenticated s stream_id (err e) =
      refuse s stream_id unauthenticated (codes "authentication failed")

  abbrev pub auth_checked : Session → ℕ → Auth → Result (Unit {0}) Invalid → Turn CodecError
  auth_checked s stream_id m (ok valid) = authenticated s stream_id (authenticate_token m.token)
  auth_checked s stream_id m (err e) = refuse s stream_id bad_request (show_invalid e)

  abbrev pub auth_decoded : Session → ℕ → Result Auth CodecError → Turn CodecError
  auth_decoded s stream_id (ok m) = auth_checked s stream_id m (validate_auth m)
  auth_decoded s stream_id (err e) = broken e

  abbrev pub submit_checked : Session → ℕ → Result (Unit {0}) Invalid → Turn CodecError
  submit_checked s stream_id (ok valid) =
      refuse s stream_id internal (codes "run submission is not wired up yet")
  submit_checked s stream_id (err e) = refuse s stream_id bad_request (show_invalid e)

  abbrev pub submit_decoded : Session → ℕ → Result SubmitRun CodecError → Turn CodecError
  submit_decoded s stream_id (ok m) = submit_checked s stream_id (validate_submit_run m)
  submit_decoded s stream_id (err e) = broken e

  abbrev pub unimplemented : Session → ℕ → Turn CodecError
  unimplemented s stream_id = refuse s stream_id internal (codes "not implemented yet")

  -- The match on the kind of the frame.
  unfoldable pub serve : Session → ℕ → Bytes → MsgType → Turn CodecError
  serve s stream_id payload ping = pinged s stream_id (codec.decode_ping payload)
  serve s stream_id payload auth = auth_decoded s stream_id (codec.decode_auth payload)
  serve s stream_id payload submit_run =
      submit_decoded s stream_id (codec.decode_submit_run payload)
  serve s stream_id payload get_run = unimplemented s stream_id
  serve s stream_id payload cancel_run = unimplemented s stream_id
  serve s stream_id payload tail_logs = unimplemented s stream_id
  serve s stream_id payload cas_query = unimplemented s stream_id
  serve s stream_id payload goodbye = ([], finish (ok tt))
  serve s stream_id payload other =
      refuse s stream_id bad_request (debug other ++ codes " is not valid from a client")

  -- One turn of the loop, on a frame: the gate, and then the match.
  unfoldable pub turn : Session → Frame → Turn CodecError
  turn s f =
      if not s.authenticated && not (allowed_preauth f.header.msg_type)
      then refuse s f.header.stream_id auth_required
          (codes "authenticate before issuing this request")
      else serve s f.header.stream_id f.payload f.header.msg_type

  -- A connection that was closed or reset is the normal end.
  abbrev pub hung_up : ConnError CodecError → Result (Unit {0}) (SessionError CodecError)
  hung_up (io unexpected_eof) = ok tt
  hung_up (io connection_reset) = ok tt
  hung_up e = err (conn_error e)

  abbrev pub continued :
      (Session → List Reply × Ended CodecError) → Turn CodecError → List Reply × Ended CodecError
  continued loop (sent, resume s) = let (more, ended) = loop s in (sent ++ more, ended)
  continued loop (sent, finish r) = (sent, returned r)

  -- The loop of `handle`.
  unfoldable pub run :
      List (Result Frame (ConnError CodecError)) → Session → List Reply × Ended CodecError
  run [] s = ([], waiting s)
  run (err e ∷ later) s = ([], returned (hung_up e))
  run (ok f ∷ later) s = continued (run later) (turn s f)

  -- What the session has sent: in the handshake, and after it.
  pub record Transcript : Type 0 where
    pub greeting : List Handshake.Sent
    pub replies : List Reply
    pub ended : Ended CodecError

  abbrev pub received : Frame → Received CodecError
  received f = record {
    msg_type = f.header.msg_type;
    stream_id = f.header.stream_id;
    payload = codec.decode_hello f.payload;
  }

  abbrev pub greeted :
      List (Result Frame (ConnError CodecError)) → Handshake.Outcome CodecError → Transcript
  greeted later (ok hello, sent, conn) =
      let (replies, ended) = run later (record { conn = conn; authenticated = false }) in
      record { greeting = sent; replies = replies; ended = ended }
  greeted later (err e, sent, conn) = record {
    greeting = sent;
    replies = [];
    ended = returned (err (conn_error e));
  }

  -- `handle`. In the handshake any failure of the connection ends the session with its error.
  unfoldable pub handle : Bytes → Bytes → List (Result Frame (ConnError CodecError)) → Transcript
  handle agent session [] = record {
    greeting = [];
    replies = [];
    ended = waiting (record { conn = Conn.server; authenticated = false });
  }
  handle agent session (err e ∷ later) = record {
    greeting = [];
    replies = [];
    ended = returned (err (conn_error e));
  }
  handle agent session (ok f ∷ later) =
      greeted later (server_handshake delivers Conn.server agent session (received f))
