-- ===== src/Server/Session/Returns.antt =====
-- crates/jet-server/src/jrp.rs: a session ends with its connection.
use jetrun.Prelude.{◌≡◌, refl, List, [], ◌∷◌, ◌++◌, Result, Bytes, ok, err}
use jetrun.Proto.Frame.{MsgType}
use jetrun.Proto.Msg.{Invalid, Codec}
use jetrun.Proto.Conn.{ConnError}
use jetrun.Proto.Conn.Transport.{Frame}
use jetrun.Proto.Conn.Handshake.{Outcome}
use jetrun.Server.State.{AuthError}
use jetrun.Server.Session.{
  Session, SessionError, Reply, resume, finish, Turn, Ended, returned, turn, hung_up, continued,
  run, greeted, handle,
}

abbrev pub IsReturned : {CodecError : Type 0} → Ended CodecError → Type 0
IsReturned {CodecError} ended =
    (r : Result (Unit {0}) (SessionError CodecError)) × (ended ≡ returned r)

module _ {CodecError : Type 0} (codec : Codec CodecError)
    (authenticate_token : Bytes → Result (Unit {0}) AuthError) (show_invalid : Invalid → Bytes)
    (debug : MsgType → Bytes) (e : ConnError CodecError)
    (later : List (Result Frame (ConnError CodecError))) where
  continued-IsReturned :
      (loop : Session → List Reply × Ended CodecError) (t : Turn CodecError)
      → ((s : Session) → IsReturned (loop s).1)
      → IsReturned (continued codec authenticate_token show_invalid debug loop t).1
  continued-IsReturned loop (sent, resume s) h = h s
  continued-IsReturned loop (sent, finish r) h = (r, refl)

  run-IsReturned :
      (arrivals : List (Result Frame (ConnError CodecError))) (s : Session)
      → IsReturned (run codec authenticate_token show_invalid debug (arrivals ++ err e ∷ later) s).1
  unfolding run
  run-IsReturned [] s = (hung_up codec authenticate_token show_invalid debug e, refl)
  run-IsReturned (err x ∷ arrivals) s =
      (hung_up codec authenticate_token show_invalid debug x, refl)
  run-IsReturned (ok f ∷ arrivals) s =
      continued-IsReturned _ (turn codec authenticate_token show_invalid debug s f)
        (run-IsReturned arrivals)

  greeted-IsReturned :
      (arrivals : List (Result Frame (ConnError CodecError))) (o : Outcome CodecError)
      → IsReturned
          (greeted codec authenticate_token show_invalid debug (arrivals ++ err e ∷ later) o).ended
  greeted-IsReturned arrivals (ok hello, sent, conn) = run-IsReturned arrivals _
  greeted-IsReturned arrivals (err x, sent, conn) = (_, refl)

  -- No session outlives its connection: whatever a peer has sent, once receiving fails, by the end of the
  -- connection or otherwise, the session has returned, and it does not wait.
  pub handle-IsReturned :
      (agent session : Bytes) (arrivals : List (Result Frame (ConnError CodecError)))
      → IsReturned
          (handle codec authenticate_token show_invalid debug agent session
            (arrivals ++ err e ∷ later)).ended
  unfolding handle
  handle-IsReturned agent session [] = (_, refl)
  handle-IsReturned agent session (err x ∷ arrivals) = (_, refl)
  handle-IsReturned agent session (ok f ∷ arrivals) = greeted-IsReturned arrivals _
