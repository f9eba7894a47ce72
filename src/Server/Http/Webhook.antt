-- ===== src/Server/Http/Webhook.antt =====
-- crates/jet-server/src/http.rs: what a webhook that starts a run has shown.
use jetrun.Prelude.{
  Option-cases, ℕ, false, ◌≡◌, refl, sym, ◌≢◌, inl, inr, true, Option, none, some, Bool-cases,
  get_key, Result, ok_or, ◌>>=◌, Bytes, ok, err,
}
use jetrun.Server.Verify.{
  delivery_header, Verified, verify, is_empty, VerifyError, no_secret_configured,
}
use jetrun.Server.Verify.Proof.{IsProved, verify-IsProved}
use jetrun.Server.Dedupe.{Delivery, fresh, duplicate, unidentified, check}
use jetrun.Server.Event.Json.{Value}
use jetrun.Server.Event.Parse.{parse}
use jetrun.Server.Event.Trigger.Exact.{IsParsed, parse-IsParsed}
use jetrun.Server.State.{webhook_secret, ServerState, unknown_repo, enqueue}
use jetrun.Server.Http.Headers.{RawHeaders, lookup}
use jetrun.Server.Http.{
  provider_of, deduplicated, checked, webhook, plain, Response, accepted, acknowledged, rejected,
  queued, dispatch, parsed, Value, RawHeaders, Provider, Verified, Delivery, webhook_secret,
  duplicate, parse,
}
use jetrun.Server.Event.{TriggerEvent, WebhookError, should_trigger}

-- A response that starts no run.
never : {r : Response} {id : Bytes} → r ≡ accepted id → r ≢ accepted id → ⊥
never h n = n h

module _ (state : ServerState) (run_id id : Bytes) where
  -- A run is queued only for a repository that is configured, under the identifier that was made.
  enqueue-ok :
      (event : TriggerEvent) (o : Option (Bytes × Bytes))
      → o ≡ get_key event.repo state.repo_map
      → queued (ok_or o (unknown_repo event.repo) >>= λ p. ok run_id) ≡ accepted id
      → (target : Bytes × Bytes) × (get_key event.repo state.repo_map ≡ some target) × (id ≡ run_id)
  enqueue-ok event none e h = cc
  enqueue-ok event (some target) e h = (target, sym e, cc)

  -- What an event that starts a run shows.
  abbrev pub IsQueued : TriggerEvent → Type 0
  IsQueued event =
      (should_trigger event ≡ true)
      × ((target : Bytes × Bytes) × (get_key event.repo state.repo_map ≡ some target))
      × (id ≡ run_id)

  dispatch-IsQueued :
      (event : TriggerEvent) → dispatch state run_id event ≡ accepted id → IsQueued event
  unfolding dispatch enqueue
  dispatch-IsQueued event h = elim (Bool-cases (should_trigger event)) [
    | inl p ↦ let (t, a, b) = enqueue-ok event _ refl (rw p at h) in (p, (t, a), b)
    | inr p ↦ absurd (apart (rw p at h))
  ]
    where
      apart : {detail : Bytes} → acknowledged detail ≢ accepted id
      apart h = cc

  parsed-IsQueued :
      (r : Result TriggerEvent WebhookError)
      → parsed state run_id r ≡ accepted id
      → (event : TriggerEvent) × (r ≡ ok event) × IsQueued event
  parsed-IsQueued (ok event) h = (event, refl, dispatch-IsQueued event h)
  parsed-IsQueued (err (WebhookError.missing_header name)) h = cc
  parsed-IsQueued (err (WebhookError.verify e)) h = cc
  parsed-IsQueued (err WebhookError.body_too_large) h = cc
  parsed-IsQueued (err (WebhookError.bad_json e)) h = cc
  parsed-IsQueued (err (WebhookError.missing_field name)) h = cc
  parsed-IsQueued (err (WebhookError.replay e)) h = cc

pub rejected-apart : (e : VerifyError) (id : Bytes) → rejected e ≢ accepted id
rejected-apart (no_secret_configured p) id h = cc
rejected-apart (VerifyError.missing_header name) id h = cc
rejected-apart VerifyError.malformed_signature id h = cc
rejected-apart VerifyError.legacy_sha1_refused id h = cc
rejected-apart VerifyError.signature_mismatch id h = cc

module _ (to_str : Bytes → Option Bytes) (debug_text : Bytes → Bytes) (hmac : Bytes → Bytes → Bytes)
    (hex_decode : Bytes → Option Bytes) (from_slice : Bytes → Result Value Bytes) where
  -- What the request that started a run has shown of itself, and of the server's state.
  pub record IsStart (state : ServerState) (now : ℕ) (run_id id name : Bytes) (raw : RawHeaders)
      (body : Bytes) (provider : Provider) (key : Bytes) (verified : Verified)
      (event : TriggerEvent) : Type 0 where
    pub named : provider_of name ≡ some provider
    pub keyed : webhook_secret state provider ≡ some key
    pub key_filled : is_empty key ≡ false
    pub proved : IsProved hmac hex_decode provider (lookup to_str raw) body key verified
    pub unseen :
        (check state.deliveries (lookup to_str raw (delivery_header provider)) now).0 ≢ duplicate
    pub understood : IsParsed from_slice provider (lookup to_str raw) body verified event
    pub queued : IsQueued state run_id id event

  -- Some provider, secret and event make the request one that starts a run.
  abbrev pub Starts : ServerState → ℕ → Bytes → Bytes → Bytes → RawHeaders → Bytes → Type 0
  Starts state now run_id id name raw body =
      (provider : Provider) × (key : Bytes) × (verified : Verified) × (event : TriggerEvent)
      × IsStart state now run_id id name raw body provider key verified event

  module _ (now : ℕ) (run_id id name : Bytes) (raw : RawHeaders) (body : Bytes) where
    deduplicated-Starts :
        (state : ServerState) (provider : Provider) (v : Verified) (d : Delivery)
        → deduplicated to_str debug_text hmac hex_decode from_slice state run_id provider raw body v
            d
          ≡ accepted id
        → (d ≢ duplicate)
          × ((event : TriggerEvent) × (parse from_slice provider (lookup to_str raw) body v
                ≡ ok event)
              × IsQueued state run_id id event)
    deduplicated-Starts state provider v duplicate h = cc
    deduplicated-Starts state provider v fresh h = (λ e. cc, parsed-IsQueued state run_id id _ h)
    deduplicated-Starts state provider v unidentified h =
        (λ e. cc, parsed-IsQueued state run_id id _ h)

    checked-Starts :
        (state : ServerState) (provider : Provider) (r : Result Verified VerifyError)
        → provider_of name ≡ some provider
        → r
          ≡ verify hmac hex_decode provider (lookup to_str raw) body (webhook_secret state provider)
        → (checked to_str debug_text hmac hex_decode from_slice state now run_id provider raw body
            r).0
          ≡ accepted id
        → Starts state now run_id id name raw body
    checked-Starts state provider (err e) named r h = absurd (rejected-apart e id h)
    checked-Starts state provider (ok v) named r h =
        let (key, keyed, filled, proved) =
          verify-IsProved hmac hex_decode provider (lookup to_str raw) body
            (webhook_secret state provider) v (sym r) in
        let (unseen, (event, p, q)) =
          deduplicated-Starts
            (record state {
              deliveries =
                  (check state.deliveries (lookup to_str raw (delivery_header provider)) now).1;
            })
            provider v _ h in
        (
          provider,
          key,
          v,
          event,
          record {
            named = named;
            keyed = keyed;
            key_filled = filled;
            proved = proved;
            unseen = unseen;
            understood = parse-IsParsed from_slice provider (lookup to_str raw) body v event p;
            queued = q;
          },
        )

    -- Whatever is received: a webhook starts a run only when it names a provider whose secret is
    -- configured and not empty, carries that provider's proof under it (the MAC of these very bytes for
    -- GitHub and Bitbucket, the secret itself for GitLab), is not a duplicate to the guard, is of a kind
    -- that starts runs with that provider, and comes from a repository that is configured; and the run
    -- that is answered is the one that was made for it.
    pub webhook-Starts :
        (state : ServerState)
        → (webhook to_str debug_text hmac hex_decode from_slice state now run_id name raw body).0
          ≡ accepted id
        → Starts state now run_id id name raw body
    unfolding webhook
    webhook-Starts state h = elim (Option-cases (provider_of name)) [
      | inl p ↦ absurd (unknown (rw p at h))
      | inr (provider, p) ↦ checked-Starts state provider _ p refl (rw p at h)
    ]
      where
        unknown : {code : ℕ} {text : Bytes} → plain code text ≢ accepted id
        unknown h = cc
