-- ===== src/Server/Event/Trigger/Exact.antt =====
-- crates/jet-server/src/webhook/mod.rs: what a parsed delivery says of itself.

use jetrun.Server.Event.Parse.{payload_of, json_error, parse}
use jetrun.Server.Verify.{event_header, delivery_header, Verified, Provider}
use jetrun.Prelude.{
  ap, subst, ok_or-eq_ok, >>=-eq-ok, Ensures-ok, ok, err, Option, ok_or, ◌≡◌, refl, ◌↔◌, true, some,
  Result, Bytes,
}
use jetrun.Server.Event.{WebhookError, TriggerEvent, should_trigger}
use jetrun.Server.Event.Json.{Value}
use jetrun.Server.Event.Payload.{Parsed}
use jetrun.Server.Event.Trigger.{IsTrigger}
use jetrun.Server.Event.Trigger.Payloads.{payload-Decides}

-- What a delivery that is parsed says of itself.
abbrev pub IsParsed :
    (Bytes → Result Value Bytes)
    → Provider
    → (Bytes → Option Bytes)
    → Bytes
    → Verified
    → TriggerEvent
    → Type 0
IsParsed from_slice provider headers body v e =
    (event : Bytes) × (j : Value) × (headers (event_header provider) ≡ some event)
    × (from_slice body ≡ ok j)
    × ((should_trigger e ≡ true) ↔ IsTrigger provider event j)
    × (e.provider ≡ provider)
    × (e.delivery_id ≡ headers (delivery_header provider))
    × (e.body_authenticated ≡ v.body_authenticated)

json_error-ok : (r : Result Value Bytes) (j : Value) → json_error r ≡ ok j → r ≡ ok j
json_error-ok (ok v) j h = ap ok (ok-injective h)
  where
    ok-injective : ◌≡◌ {A = Result Value WebhookError} (ok v) (ok j) → v ≡ j
    ok-injective h = cc
json_error-ok (err e) j h = cc

-- Whatever is received: a delivery that is parsed has its event header and a JSON body, and it starts a
-- run exactly when it is one of these. GitHub: `push`, or `pull_request` with a common action, which is
-- one of `opened`, `reopened`, `synchronize` and `updated`. GitLab: `Push Hook`, `Tag Push Hook`, or
-- `Merge Request Hook` with the action `open`, `reopen` or `update`, or a common one. Bitbucket:
-- `repo:push` whose first change has a new state, `pullrequest:created`, or a common action behind
-- `pullrequest:`, once or more. A push of GitHub or GitLab counts also when it deletes the branch. The
-- event keeps the provider, the delivery id and whether the body was authenticated.
pub parse-IsParsed :
    (from_slice : Bytes → Result Value Bytes) (provider : Provider) (headers : Bytes → Option Bytes)
    (body : Bytes) (v : Verified) (e : TriggerEvent)
    → parse from_slice provider headers body v ≡ ok e
    → IsParsed from_slice provider headers body v e
unfolding parse should_trigger
parse-IsParsed from_slice provider headers body v e h =
    let (event, a, h) = >>=-eq-ok (ok_or (headers (event_header provider)) _) _ h in
    let (j, b, h) = >>=-eq-ok (json_error (from_slice body)) _ h in
    let (p, c, h) = >>=-eq-ok (payload_of provider event j) _ h in
    let same : event_of p ≡ e = ok-injective h in
    subst (λ x. IsParsed from_slice provider headers body v x) same
      (
        event,
        j,
        ok_or-eq_ok _ _ _ a,
        json_error-ok _ _ b,
        Ensures-ok _ _ (payload-Decides provider event j) p c,
        refl,
        refl,
        refl,
      )
  where
    event_of : Parsed → TriggerEvent
    event_of parsed = record {
      provider = provider;
      delivery_id = headers (delivery_header provider);
      kind = parsed.kind;
      repo = parsed.repo;
      commit_sha = parsed.commit_sha;
      reference = parsed.reference;
      actor = parsed.actor;
      body_authenticated = v.body_authenticated;
    }

    ok-injective :
        {a b : TriggerEvent} → ◌≡◌ {A = Result TriggerEvent WebhookError} (ok a) (ok b) → a ≡ b
    ok-injective h = cc
