-- ===== src/Server/Event/Parse.antt =====
-- crates/jet-server/src/webhook/mod.rs: `parse`, over a verified delivery. The reader of JSON
-- (serde_json) is a parameter.
use jetrun.Prelude.{Option, Result, ok, err, ok_or, ◌>>=◌, Bytes}
use jetrun.Server.Verify.{
  Provider, github, gitlab, bitbucket, event_header, delivery_header, Verified,
}
use jetrun.Server.Event.{TriggerEvent, WebhookError, missing_header, bad_json}
use jetrun.Server.Event.Json.{Value}
use jetrun.Server.Event.Payload
use jetrun.Server.Event.Payload.{Parsed}

-- The parser of a provider.
unfoldable pub payload_of : Provider → Bytes → Value → Result Parsed WebhookError
payload_of github event j = Payload.github event j
payload_of gitlab event j = Payload.gitlab event j
payload_of bitbucket event j = Payload.bitbucket event j

abbrev pub json_error : Result Value Bytes → Result Value WebhookError
json_error (ok j) = ok j
json_error (err e) = err (bad_json e)

unfoldable pub parse :
    (from_slice : Bytes → Result Value Bytes)
    → Provider
    → (Bytes → Option Bytes)
    → Bytes
    → Verified
    → Result TriggerEvent WebhookError
parse from_slice provider headers body verified = do
  event ← ok_or (headers (event_header provider)) (missing_header (event_header provider))
  let delivery_id = headers (delivery_header provider)
  j ← json_error (from_slice body)
  parsed ← payload_of provider event j
  ok (record {
    provider = provider;
    delivery_id = delivery_id;
    kind = parsed.kind;
    repo = parsed.repo;
    commit_sha = parsed.commit_sha;
    reference = parsed.reference;
    actor = parsed.actor;
    body_authenticated = verified.body_authenticated;
  })
