-- ===== src/Proto/Msg.antt =====
-- crates/jet-proto/src/msg.rs: the messages that a server receives, their limits and their
-- validation, and the error codes. A text is its bytes; how rkyv archives a message is a parameter of
-- what decodes one.
pub mod Limits
pub mod Samples
mod Tests
use jetrun.Prelude.{
  ◌^◌, ℕ, Bool, Option, none, some, List, [], ◌∷◌, ltb, length, Result, refuse_if, ◌>>=◌, ◌>>◌,
  Bytes, codes, ok, err,
}

-- `caps::ALL`: four bits.
abbrev pub all_caps : ℕ
all_caps = 0b1111

-- `code`
abbrev pub internal : ℕ
internal = 1

abbrev pub bad_request : ℕ
bad_request = 2

abbrev pub unauthenticated : ℕ
unauthenticated = 3

abbrev pub forbidden : ℕ
forbidden = 4

abbrev pub not_found : ℕ
not_found = 5

abbrev pub version_mismatch : ℕ
version_mismatch = 6

abbrev pub rate_limited : ℕ
rate_limited = 7

abbrev pub auth_required : ℕ
auth_required = 8

-- `limits`
abbrev pub max_agent_len : ℕ
max_agent_len = 128

abbrev pub max_token_len : ℕ
max_token_len = 512

abbrev pub max_name_len : ℕ
max_name_len = 128

abbrev pub max_definition_len : ℕ
max_definition_len = 2 ^ 20

abbrev pub max_ref_len : ℕ
max_ref_len = 512

abbrev pub max_id_len : ℕ
max_id_len = 64

abbrev pub max_idempotency_len : ℕ
max_idempotency_len = 128

abbrev pub max_query_digests : ℕ
max_query_digests = 4096

abbrev pub max_digest_len : ℕ
max_digest_len = 67

pub record Hello : Type 0 where
  pub agent : Bytes
  pub min_version : ℕ
  pub max_version : ℕ
  pub capabilities : ℕ

pub record HelloAck : Type 0 where
  pub agent : Bytes
  pub version : ℕ
  pub capabilities : ℕ
  pub session : Bytes

pub data Invalid : Type 0 where
  too_long : Bytes → ℕ → ℕ → Invalid
  empty : Bytes → Invalid
  other : Bytes → Invalid

unfoldable pub bounded : Bytes → Bytes → ℕ → Result (Unit {0}) Invalid
bounded field s most = refuse_if (ltb most (length s)) (too_long field (length s) most)

-- `Hello::validate`
unfoldable pub validate_hello : Hello → Result (Unit {0}) Invalid
validate_hello h = do
  bounded (codes "agent") h.agent max_agent_len
  refuse_if (ltb h.max_version h.min_version) (other (codes "min_version exceeds max_version"))

pub record Auth : Type 0 where
  pub token : Bytes

pub record SubmitRun : Type 0 where
  pub project : Bytes
  pub pipeline : Bytes
  pub definition : Bytes
  pub commit_sha : Option Bytes
  pub reference : Option Bytes
  pub idempotency_key : Option Bytes

pub record GetRun : Type 0 where
  pub run_id : Bytes

pub record CancelRun : Type 0 where
  pub run_id : Bytes

pub record TailLogs : Type 0 where
  pub run_id : Bytes
  pub step : Option Bytes
  pub from_offset : ℕ
  pub follow : Bool

pub record CasQuery : Type 0 where
  pub digests : List Bytes

pub record ErrorMsg : Type 0 where
  pub code : ℕ
  pub message : Bytes

pub record Ping : Type 0 where
  pub nonce : ℕ

pub record Pong : Type 0 where
  pub nonce : ℕ

pub record AuthOk : Type 0 where
  pub org : Bytes
  pub principal_kind : Bytes
  pub principal_id : Bytes
  pub permissions : List Bytes

-- `decode`, at the messages that the two ends decode: rkyv's checked reading of a payload.
pub record Codec (CodecError : Type 0) : Type 0 where
  pub decode_hello : Bytes → Result Hello CodecError
  pub decode_hello_ack : Bytes → Result HelloAck CodecError
  pub decode_error : Bytes → Result ErrorMsg CodecError
  pub decode_ping : Bytes → Result Ping CodecError
  pub decode_pong : Bytes → Result Pong CodecError
  pub decode_auth : Bytes → Result Auth CodecError
  pub decode_submit_run : Bytes → Result SubmitRun CodecError

unfoldable pub nonempty_bounded : Bytes → Bytes → ℕ → Result (Unit {0}) Invalid
nonempty_bounded field [] most = err (empty field)
nonempty_bounded field (b ∷ s) most = bounded field (b ∷ s) most

-- `if let Some(s) = … { bounded(…)?; }`
abbrev pub bounded_if_some : Bytes → Option Bytes → ℕ → Result (Unit {0}) Invalid
bounded_if_some field none most = ok tt
bounded_if_some field (some s) most = bounded field s most

unfoldable pub validate_auth : Auth → Result (Unit {0}) Invalid
validate_auth m = nonempty_bounded (codes "token") m.token max_token_len

unfoldable pub validate_submit_run : SubmitRun → Result (Unit {0}) Invalid
validate_submit_run m = do
  nonempty_bounded (codes "project") m.project max_name_len
  nonempty_bounded (codes "pipeline") m.pipeline max_name_len
  refuse_if (ltb max_definition_len (length m.definition))
      (too_long (codes "definition") (length m.definition) max_definition_len)
  bounded_if_some (codes "commit_sha") m.commit_sha max_id_len
  bounded_if_some (codes "reference") m.reference max_ref_len
  bounded_if_some (codes "idempotency_key") m.idempotency_key max_idempotency_len

unfoldable pub validate_get_run : GetRun → Result (Unit {0}) Invalid
validate_get_run m = nonempty_bounded (codes "run_id") m.run_id max_id_len

unfoldable pub validate_cancel_run : CancelRun → Result (Unit {0}) Invalid
validate_cancel_run m = nonempty_bounded (codes "run_id") m.run_id max_id_len

unfoldable pub validate_tail_logs : TailLogs → Result (Unit {0}) Invalid
validate_tail_logs m = do
  nonempty_bounded (codes "run_id") m.run_id max_id_len
  bounded_if_some (codes "step") m.step max_name_len

-- The loop over the digests.
unfoldable pub bounded_digests : List Bytes → Result (Unit {0}) Invalid
bounded_digests [] = ok tt
bounded_digests (d ∷ digests) = do
  bounded (codes "digest") d max_digest_len
  bounded_digests digests

unfoldable pub validate_cas_query : CasQuery → Result (Unit {0}) Invalid
validate_cas_query m = do
  refuse_if (ltb max_query_digests (length m.digests))
      (too_long (codes "digests") (length m.digests) max_query_digests)
  bounded_digests m.digests

-- The messages that have a `Validate`, and its implementations.
pub data Inbound : Type 0 where
  greet : Hello → Inbound
  authenticate : Auth → Inbound
  submit : SubmitRun → Inbound
  get : GetRun → Inbound
  cancel : CancelRun → Inbound
  tail : TailLogs → Inbound
  query : CasQuery → Inbound

unfoldable pub validate : Inbound → Result (Unit {0}) Invalid
validate (greet m) = validate_hello m
validate (authenticate m) = validate_auth m
validate (submit m) = validate_submit_run m
validate (get m) = validate_get_run m
validate (cancel m) = validate_cancel_run m
validate (tail m) = validate_tail_logs m
validate (query m) = validate_cas_query m
