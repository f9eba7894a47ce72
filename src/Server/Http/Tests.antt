-- ===== src/Server/Http/Tests.antt =====
-- crates/jet-server/src/http.rs: signed deliveries, their replay, and the refusals.
use jetrun.Prelude.{
  ◌≡◌, refl, ◌≢◌, inl, none, some, List, [], ◌∷◌, get_key, insert_key, Result, Bytes, codes,
  bytes_eq, ok, err, ℕ, true, length, All, ◌-◌, ◌+◌, ◌<◌, arith, ◌≤◌,
}
use jetrun.Core.Id.{strip_prefix}
use jetrun.Server.Verify.{
  github, gitlab, provider_str, event_header, delivery_header, verify, verify_hmac_sha256,
  sign_hmac_sha256, to_ascii_lowercase,
}
use jetrun.Server.Verify.Toy.{mac, encode, decode, mac_32, length-encode, decode-encode_toy}
use jetrun.Server.Dedupe
use jetrun.Server.Dedupe.{duplicate, fresh, is_identified, check}
use jetrun.Server.Dedupe.Bounds.{IsBounded, new-IsBounded}
use jetrun.Server.Event.{push, is_trigger_action, kind_triggers, should_trigger}
use jetrun.Server.Event.Json
use jetrun.Server.Event.Json.{Value, string, object, member, end, walk, s, u}
use jetrun.Server.Event.Payload
use jetrun.Server.Event.Payload.{Parsed, short_ref}
use jetrun.Server.Event.Parse.{payload_of, parse}
use jetrun.Server.State.{
  ServerState, new, set_secret, get_secret, map_repo, webhook_secret, enqueue,
}
use jetrun.Server.Http.Headers.{RawHeaders, collect, lookup}
use jetrun.Server.Http.{
  Response, accepted, acknowledged, plain, provider_of, ignored_detail, dispatch, webhook,
  TriggerBody, healthz, webhooks, Request, respond, serve_all,
}
use jetrun.Server.Http.Webhook.{Starts, webhook-Starts}
use jetrun.Server.Http.Requests.{serve_all-IsBounded}
use jetrun.Server.Http.Once.{webhook-once}
use jetrun.Server.Http.Signed.{webhook-signed}

abbrev secret : Bytes
secret = codes "s3cret"

abbrev body : Bytes
body = codes "{}"

-- A push to the main branch of acme/web, whatever the bytes.
abbrev document : Value
document = object (
    member (codes "ref") (string (codes "refs/heads/main")) (
      member (codes "repository")
        (object (member (codes "full_name") (string (codes "acme/web")) end)) end))

abbrev from_slice : Bytes → Result Value Bytes
from_slice bytes = ok document

abbrev parsed : Parsed
parsed = record {
  kind = push (codes "main");
  repo = codes "acme/web";
  commit_sha = none;
  reference = some (codes "refs/heads/main");
  actor = none;
}

abbrev headers : RawHeaders
headers =
    (codes "x-github-event", codes "push")
    ∷ (codes "x-github-delivery", codes "d-1")
    ∷ (codes "x-hub-signature-256", sign_hmac_sha256 mac encode body secret)
    ∷ []

abbrev state : ServerState
state = map_repo (codes "acme/web") (codes "web") (codes "ci") (new (set_secret github secret []))

abbrev body_of : Bytes → Result TriggerBody Bytes
body_of bytes = err (codes "eof")

program : Unit {0}
unfolding verify verify_hmac_sha256 sign_hmac_sha256 provider_str event_header delivery_header
    to_ascii_lowercase strip_prefix bytes_eq get_key insert_key collect lookup provider_of webhook
    dispatch ignored_detail parse payload_of Payload.github short_ref Json.find Json.get walk s u
    is_trigger_action kind_triggers should_trigger enqueue webhook_secret get_secret set_secret
    map_repo Dedupe.check Dedupe.get Dedupe.insert Dedupe.pruned Dedupe.evicted Dedupe.new
    Dedupe.at_least_one respond serve_all
program = tt

abbrev handled : ServerState → ℕ → Bytes → Bytes → RawHeaders → Response × ServerState
handled st now run_id name raw =
    webhook (λ v. some v) (λ v. v) mac decode from_slice st now run_id name raw body

started : (handled state 0 (codes "run") (codes "github") headers).0 ≡ accepted (codes "run")
unfolding program
started = refl

-- The same delivery again, ten seconds later.
replayed :
    (handled
      (handled state 0 (codes "run") (codes "github") headers).1
      10_000
      (codes "two")
      (codes "github")
      headers).0
    ≡ acknowledged (codes "duplicate delivery")
unfolding program
replayed = refl

-- A provider whose secret is not configured is the server's fault; one that is not known is not found.
no_secret :
    (handled state 0 (codes "run") (codes "gitlab") headers).0 ≡ plain 500 (codes "rejected")
unfolding program
no_secret = refl

unknown_provider : (handled state 0 (codes "run") (codes "gitea") headers).1 ≡ state
unfolding program
unknown_provider = refl

webhook-Starts_example :
    Starts
      (λ v. some v)
      (λ v. v)
      mac
      decode
      from_slice
      state
      0
      (codes "run")
      (codes "run")
      (codes "github")
      headers
      body
webhook-Starts_example =
    webhook-Starts (λ v. some v) (λ v. v) mac decode from_slice 0 (codes "run") (codes "run")
      (codes "github") headers body state started

abbrev requests : List (ℕ × Bytes × Request)
requests =
    (10, codes "r1", record { route = healthz; headers = []; body = [] })
    ∷ (20, codes "r2", record { route = webhooks (codes "github"); headers = headers; body = body })
    ∷ []

serve_all-IsBounded_example :
    let after = (serve_all (λ v. some v) (λ v. v) mac decode from_slice body_of requests state).1 in
    IsBounded after.deliveries × (after.secrets ≡ state.secrets) × (after.repo_map ≡ state.repo_map)
unfolding map_repo
serve_all-IsBounded_example =
    serve_all-IsBounded (λ v. some v) (λ v. v) mac decode from_slice body_of requests state
      (new-IsBounded 3_600_000 65_536)

github≢gitlab : github ≢ gitlab
github≢gitlab h = cc

unseen :
    (check state.deliveries (lookup (λ v. some v) headers (delivery_header github)) 0).0 ≢ duplicate
unfolding program
unseen h = cc

webhook-signed_example :
    (webhook
      (λ v. some v)
      (λ v. v)
      mac
      decode
      from_slice
      state
      0
      (codes "run")
      (codes "github")
      headers
      body).0
    ≡ accepted (codes "run")
unfolding program
webhook-signed_example =
    webhook-signed (λ v. some v) (λ v. v) mac encode decode from_slice mac_32 length-encode
      decode-encode_toy state 0 (codes "run") (codes "github") headers body github secret
      (codes "push") document parsed (codes "web", codes "ci") refl github≢gitlab refl refl refl
      unseen refl refl refl (inl refl) refl

found : lookup (λ v. some v) headers (delivery_header github) ≡ some (codes "d-1")
unfolding program
found = refl

known : is_identified (codes "d-1") ≡ true
known = refl

room :
    length (handled state 0 (codes "run") (codes "github") headers).1.deliveries.seen + 2
    ≤ (handled state 0 (codes "run") (codes "github") headers).1.deliveries.capacity
unfolding program
room = omega arith

bounded : IsBounded state.deliveries
unfolding map_repo
bounded = new-IsBounded 3_600_000 65_536

named : provider_of (codes "github") ≡ some github
unfolding program
named = refl

soon : 30 - 0 < state.deliveries.ttl
unfolding program
soon = omega arith

timely : All (λ r. r.0 - 0 < state.deliveries.ttl) requests
unfolding program
timely = omega arith

webhook-once_example :
    (handled
      (serve_all
        (λ v. some v)
        (λ v. v)
        mac
        decode
        from_slice
        body_of
        requests
        (handled state 0 (codes "run") (codes "github") headers).1).1
      30
      (codes "two")
      (codes "github")
      headers).0
    ≢ accepted (codes "two")
webhook-once_example =
    webhook-once (λ v. some v) (λ v. v) mac decode from_slice body_of state 0 (codes "run")
      (codes "run") (codes "github") headers body github (codes "d-1") requests 30 (codes "two")
      (codes "two") (codes "github") headers body github bounded named found known started timely
      room soon named found
