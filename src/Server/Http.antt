-- ===== src/Server/Http.antt =====
-- crates/jet-server/src/http.rs: the public listener. A request is what axum hands over: its route, its
-- headers in the order they came, under the lower-case names of the crate `http`, and its body. The
-- handlers of several requests meet only at the guard's lock, so a run is a sequence of requests.
pub mod Headers
pub mod Webhook
pub mod Requests
pub mod Once
pub mod Signed
mod Tests
use jetrun.Prelude.{
  Bool, false, not, ◌&&◌, ◌||◌, Option, none, some, List, [], ◌∷◌, ◌++◌, map, ltb, leb, ◌==◌,
  if◌then◌else◌, length, get_key, insert_key, Result, Bytes, codes, bytes_eq, ok, err, ℕ,
}
use mathlib.Core.List.{reverse}
use jetrun.Core.Id.{strip_prefix}
use jetrun.Proto.Msg.{max_token_len}
use jetrun.Server.Verify.{
  Provider, github, gitlab, bitbucket, delivery_header, Verified, VerifyError, no_secret_configured,
  verify, to_ascii_lowercase,
}
use jetrun.Server.Dedupe.{Delivery, duplicate, check}
use jetrun.Server.Event.{
  EventKind, push, pull_request, ping, ignored, TriggerEvent, WebhookError, should_trigger,
  missing_header, max_body_bytes,
}
use jetrun.Server.Event.Json.{Value}
use jetrun.Server.Event.Parse.{parse}
use jetrun.Server.State.{
  ServerState, EnqueueError, AuthError, unknown_repo, store, webhook_secret, enqueue,
  authenticate_token,
}
use Headers.{RawHeaders, lookup, bearer}

-- A run was queued, the request was understood and ignored, or a plain answer with its status. The
-- last is axum's own refusal of a body over the limit.
pub data Response : Type 0 where
  accepted : Bytes → Response
  acknowledged : Bytes → Response
  plain : ℕ → Bytes → Response
  body_too_large : Response

-- The status of each.
unfoldable pub status : Response → ℕ
status (accepted run_id) = 202
status (acknowledged detail) = 200
status (plain code text) = code
status body_too_large = 413

unfoldable pub provider_of : Bytes → Option Provider
provider_of name =
    if bytes_eq name (codes "github")
    then some github
    else if bytes_eq name (codes "gitlab")
    then some gitlab
    else if bytes_eq name (codes "bitbucket")
    then some bitbucket
    else none

-- Terse, as the caller is not authenticated; a missing secret is the server's own fault.
abbrev pub rejected : VerifyError → Response
rejected (no_secret_configured provider) = plain 500 (codes "rejected")
rejected e = plain 401 (codes "rejected")

unfoldable pub ignored_detail : EventKind → Bytes
ignored_detail ping = codes "ping acknowledged"
ignored_detail (ignored event) = codes "event " ++ (event ++ codes " is not configured to trigger")
ignored_detail (pull_request number action source_branch target_branch) =
    codes "pull request action " ++ (action ++ codes " does not trigger")
ignored_detail other = codes "not configured to trigger"

abbrev pub queued : Result Bytes EnqueueError → Response
queued (ok run_id) = accepted run_id
queued (err (unknown_repo repo)) = acknowledged (codes "no pipeline configured for this repository")
queued (err (store text)) = plain 500 (codes "internal error")

unfoldable pub dispatch : ServerState → Bytes → TriggerEvent → Response
dispatch state run_id event =
    if not (should_trigger event)
    then acknowledged (ignored_detail event.kind)
    else queued (enqueue state run_id event)

abbrev pub parsed : ServerState → Bytes → Result TriggerEvent WebhookError → Response
parsed state run_id (ok event) = dispatch state run_id event
parsed state run_id (err (missing_header h)) = plain 400 (codes "missing " ++ h)
parsed state run_id (err e) = plain 400 (codes "malformed payload")

-- What axum, `http`, `hmac`, `hex` and `serde_json` do is given.
module _ (to_str : Bytes → Option Bytes) (debug_text : Bytes → Bytes) (hmac : Bytes → Bytes → Bytes)
    (hex_decode : Bytes → Option Bytes) (from_slice : Bytes → Result Value Bytes) where
  abbrev pub deduplicated :
      ServerState → Bytes → Provider → RawHeaders → Bytes → Verified → Delivery → Response
  deduplicated state run_id provider raw body verified duplicate =
      acknowledged (codes "duplicate delivery")
  deduplicated state run_id provider raw body verified other =
      parsed state run_id (parse from_slice provider (lookup to_str raw) body verified)

  -- The delivery is checked against the guard, which remembers it.
  abbrev pub checked :
      ServerState
      → ℕ
      → Bytes
      → Provider
      → RawHeaders
      → Bytes
      → Result Verified VerifyError
      → Response × ServerState
  checked state now run_id provider raw body (err e) = (rejected e, state)
  checked state now run_id provider raw body (ok verified) =
      let (delivery, deliveries) =
        check state.deliveries (lookup to_str raw (delivery_header provider)) now in
      let state = record state { deliveries = deliveries } in
      (deduplicated state run_id provider raw body verified delivery, state)

  abbrev pub received :
      ServerState
      → ℕ
      → Bytes
      → Bytes
      → RawHeaders
      → Bytes
      → Option Provider
      → Response × ServerState
  received state now run_id name raw body none =
      (plain 404 (codes "unknown webhook provider " ++ debug_text name), state)
  received state now run_id name raw body (some provider) =
      checked state now run_id provider raw body
        (verify hmac hex_decode provider (lookup to_str raw) body (webhook_secret state provider))

  -- The handler of the webhooks, in the source's order: verify, deduplicate, parse, dispatch.
  unfoldable pub webhook :
      ServerState → ℕ → Bytes → Bytes → RawHeaders → Bytes → Response × ServerState
  webhook state now run_id name raw body =
      received state now run_id name raw body (provider_of name)

pub record TriggerBody : Type 0 where
  pub project : Bytes
  pub pipeline : Bytes
  pub commit_sha : Option Bytes
  pub reference : Option Bytes

abbrev pub branch_of : Option Bytes → Bytes
branch_of none = codes "api"
branch_of (some reference) = reference

-- The event of an API trigger, under a placeholder for the provider.
unfoldable pub trigger_event : TriggerBody → TriggerEvent
trigger_event req = record {
  provider = github;
  delivery_id = none;
  kind = push (branch_of req.reference);
  repo = req.project ++ (codes "/" ++ req.pipeline);
  commit_sha = req.commit_sha;
  reference = req.reference;
  actor = none;
  body_authenticated = false;
}

-- The text of an error, as thiserror writes it.
abbrev pub enqueue_text : EnqueueError → Bytes
enqueue_text (unknown_repo repo) = codes "no pipeline configured for repository " ++ repo
enqueue_text (store text) = text

abbrev pub triggered : Result Bytes EnqueueError → Response
triggered (ok run_id) = accepted run_id
triggered (err e) = plain 400 (enqueue_text e)

module _ (to_str : Bytes → Option Bytes) (body_of : Bytes → Result TriggerBody Bytes) where
  abbrev pub read_body : ServerState → Bytes → Result TriggerBody Bytes → Response
  read_body state run_id (ok req) = triggered (enqueue state run_id (trigger_event req))
  read_body state run_id (err e) = plain 400 (codes "bad body: " ++ e)

  abbrev pub admitted : ServerState → Bytes → Bytes → Result (Unit {0}) AuthError → Response
  admitted state run_id body (ok principal) = read_body state run_id (body_of body)
  admitted state run_id body (err e) = plain 401 (codes "invalid token")

  abbrev pub presented : ServerState → Bytes → Bytes → Option Bytes → Response
  presented state run_id body none = plain 401 (codes "missing bearer token")
  presented state run_id body (some token) =
      if ltb max_token_len (length token)
      then plain 400 (codes "token too long")
      else admitted state run_id body (authenticate_token token)

  -- The handler of the API's trigger.
  unfoldable pub trigger : ServerState → Bytes → RawHeaders → Bytes → Response
  trigger state run_id raw body = presented state run_id body (bearer to_str raw)

pub data Route : Type 0 where
  healthz : Route
  webhooks : Bytes → Route
  api_trigger : Route

pub record Request : Type 0 where
  pub route : Route
  pub headers : RawHeaders
  pub body : Bytes

module _ (to_str : Bytes → Option Bytes) (debug_text : Bytes → Bytes) (hmac : Bytes → Bytes → Bytes)
    (hex_decode : Bytes → Option Bytes) (from_slice : Bytes → Result Value Bytes)
    (body_of : Bytes → Result TriggerBody Bytes) where
  -- The limit on bodies, which a handler that takes one has first.
  abbrev pub limited : ServerState → Bytes → Response × ServerState → Response × ServerState
  limited state body answer =
      if ltb max_body_bytes (length body) then (body_too_large, state) else answer

  abbrev pub routed : ServerState → ℕ → Bytes → RawHeaders → Bytes → Route → Response × ServerState
  routed state now run_id raw body healthz = (plain 200 (codes "ok"), state)
  routed state now run_id raw body (webhooks name) =
      limited state body
        (webhook to_str debug_text hmac hex_decode from_slice state now run_id name raw body)
  routed state now run_id raw body api_trigger =
      limited state body (trigger to_str body_of state run_id raw body, state)

  -- The router, on one request: the time, and the identifier for a run that it may start, are given.
  unfoldable pub respond : ServerState → ℕ → Bytes → Request → Response × ServerState
  respond state now run_id r = routed state now run_id r.headers r.body r.route

  -- The requests in the order in which they take the guard's lock.
  unfoldable pub serve_all : List (ℕ × Bytes × Request) → ServerState → List Response × ServerState
  serve_all [] state = ([], state)
  serve_all ((now, run_id, r) ∷ later) state =
      let (answer, state) = respond state now run_id r in
      let (answers, state) = serve_all later state in (answer ∷ answers, state)
