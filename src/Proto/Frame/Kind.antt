-- ===== src/Proto/Frame/Kind.antt =====
-- crates/jet-proto/src/frame.rs: the message kinds, their wire codes, and which of them an
-- unauthenticated peer may send.
use jetrun.Prelude.{ℕ, Bool, true, false, Option, none, some, ◌==◌, if◌then◌else◌}

-- The cases of `MsgType`, in the order of the source.
pub data MsgType : Type 0 where
  hello : MsgType
  hello_ack : MsgType
  goodbye : MsgType
  error : MsgType
  ping : MsgType
  pong : MsgType
  auth : MsgType
  auth_ok : MsgType
  submit_run : MsgType
  run_accepted : MsgType
  get_run : MsgType
  run_info : MsgType
  cancel_run : MsgType
  tail_logs : MsgType
  log_chunk : MsgType
  cas_query : MsgType
  cas_missing : MsgType
  cas_put : MsgType
  cas_get : MsgType
  bulk_header : MsgType

-- `msg_type as u16`: the discriminants of the enum.
unfoldable pub as_u16 : MsgType → ℕ
as_u16 hello = 1
as_u16 hello_ack = 2
as_u16 goodbye = 3
as_u16 error = 4
as_u16 ping = 5
as_u16 pong = 6
as_u16 auth = 0x101
as_u16 auth_ok = 0x102
as_u16 submit_run = 0x201
as_u16 run_accepted = 0x202
as_u16 get_run = 0x203
as_u16 run_info = 0x204
as_u16 cancel_run = 0x205
as_u16 tail_logs = 0x301
as_u16 log_chunk = 0x302
as_u16 cas_query = 0x401
as_u16 cas_missing = 0x402
as_u16 cas_put = 0x403
as_u16 cas_get = 0x404
as_u16 bulk_header = 0x405

unfoldable pub from_u16 : ℕ → Option MsgType
from_u16 v =
    if v == 1
    then some hello
    else if v == 2
    then some hello_ack
    else if v == 3
    then some goodbye
    else if v == 4
    then some error
    else if v == 5
    then some ping
    else if v == 6
    then some pong
    else if v == 0x101
    then some auth
    else if v == 0x102
    then some auth_ok
    else if v == 0x201
    then some submit_run
    else if v == 0x202
    then some run_accepted
    else if v == 0x203
    then some get_run
    else if v == 0x204
    then some run_info
    else if v == 0x205
    then some cancel_run
    else if v == 0x301
    then some tail_logs
    else if v == 0x302
    then some log_chunk
    else if v == 0x401
    then some cas_query
    else if v == 0x402
    then some cas_missing
    else if v == 0x403
    then some cas_put
    else if v == 0x404
    then some cas_get
    else if v == 0x405
    then some bulk_header
    else none

-- Messages that are served before `Auth` succeeds.
unfoldable pub allowed_preauth : MsgType → Bool
allowed_preauth hello = true
allowed_preauth hello_ack = true
allowed_preauth goodbye = true
allowed_preauth error = true
allowed_preauth ping = true
allowed_preauth pong = true
allowed_preauth auth = true
allowed_preauth auth_ok = true
allowed_preauth _ = false
