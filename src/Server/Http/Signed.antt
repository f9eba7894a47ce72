-- ===== src/Server/Http/Signed.antt =====
-- crates/jet-server/src/http.rs: a genuine delivery starts its run.
use jetrun.Prelude.{
  ◌*◌, ◌≡◌, refl, ◌≢◌, ◌↔◌, true, false, Option, some, length, get_key, Result, Ensures-ok, Bytes,
  ok, ℕ,
}
use jetrun.Server.Verify.{
  Provider, gitlab, delivery_header, event_header, Verified, is_empty, sign_hmac_sha256,
}
use jetrun.Server.Verify.Proof.{proof_header, verify-sign}
use jetrun.Server.Dedupe.{Delivery, fresh, duplicate, unidentified, check}
use jetrun.Server.Event.{should_trigger, kind_triggers}
use jetrun.Server.Event.Json.{Value}
use jetrun.Server.Event.Payload.{Parsed}
use jetrun.Server.Event.Parse.{parse, payload_of}
use jetrun.Server.Event.Trigger.{IsTrigger}
use jetrun.Server.Event.Trigger.Payloads.{payload-Decides}
use jetrun.Server.State.{ServerState, webhook_secret, enqueue}
use jetrun.Server.Http.Headers.{RawHeaders, lookup}
use jetrun.Server.Http.{accepted, provider_of, dispatch, parsed, deduplicated, webhook}

module _ (to_str : Bytes → Option Bytes) (debug_text : Bytes → Bytes) (hmac : Bytes → Bytes → Bytes)
    (hex_encode : Bytes → Bytes) (hex_decode : Bytes → Option Bytes)
    (from_slice : Bytes → Result Value Bytes)
    (hmac_32 : (key body : Bytes) → length (hmac key body) ≡ 32)
    (hex_length : (bytes : Bytes) → length (hex_encode bytes) ≡ 2 * length bytes)
    (hex_round : (bytes : Bytes) → hex_decode (hex_encode bytes) ≡ some bytes) where
  module _ (state : ServerState) (run_id : Bytes) (raw : RawHeaders) (body : Bytes)
      (provider : Provider) (v : Verified) (event : Bytes) (j : Value) (p : Parsed)
      (target : Bytes × Bytes) (named : lookup to_str raw (event_header provider) ≡ some event)
      (read : from_slice body ≡ ok j) (understood : payload_of provider event j ≡ ok p)
      (triggering : IsTrigger provider event j)
      (mapped : get_key p.repo state.repo_map ≡ some target) where
    triggers : kind_triggers p.kind ≡ true
    triggers =
        (Ensures-ok (λ q. (kind_triggers q.kind ≡ true) ↔ IsTrigger provider event j) _
            (payload-Decides provider event j) p understood).1
          triggering

    parsed-accepted :
        parsed state run_id (parse from_slice provider (lookup to_str raw) body v) ≡ accepted run_id
    unfolding parse dispatch should_trigger enqueue
    parsed-accepted = rw (named, read, understood, triggers, mapped) refl

    deduplicated-accepted :
        (d : Delivery)
        → d ≢ duplicate
        → deduplicated to_str debug_text hmac hex_decode from_slice state run_id provider raw body v
            d
          ≡ accepted run_id
    deduplicated-accepted duplicate n = absurd (n refl)
    deduplicated-accepted fresh n = parsed-accepted
    deduplicated-accepted unidentified n = parsed-accepted

  -- When a MAC has 32 bytes and the crate `hex` reads back what it writes, two digits for each byte: a
  -- delivery of GitHub or Bitbucket that is signed over these bytes under the configured secret, which is
  -- not empty, that the guard does not know, whose payload is understood and of a kind that starts runs
  -- with that provider, and whose repository is configured, starts the run that was made for it.
  pub webhook-signed :
      (state : ServerState) (now : ℕ) (run_id name : Bytes) (raw : RawHeaders) (body : Bytes)
      (provider : Provider) (key event : Bytes) (j : Value) (p : Parsed) (target : Bytes × Bytes)
      → provider_of name ≡ some provider
      → provider ≢ gitlab
      → webhook_secret state provider ≡ some key
      → is_empty key ≡ false
      → lookup to_str raw (proof_header provider) ≡ some (sign_hmac_sha256 hmac hex_encode body key)
      → (check state.deliveries (lookup to_str raw (delivery_header provider)) now).0 ≢ duplicate
      → lookup to_str raw (event_header provider) ≡ some event
      → from_slice body ≡ ok j
      → payload_of provider event j ≡ ok p
      → IsTrigger provider event j
      → get_key p.repo state.repo_map ≡ some target
      → (webhook to_str debug_text hmac hex_decode from_slice state now run_id name raw body).0
        ≡ accepted run_id
  unfolding webhook
  webhook-signed state now run_id name raw body provider key event j p target called signs keyed
        filled signed unseen named read understood triggering mapped =
      rw
        (
          called,
          keyed,
          verify-sign hmac hex_encode hex_decode hmac_32 hex_length hex_round provider
              (lookup to_str raw) body key signs filled signed,
        )
        (deduplicated-accepted
          (record state {
            deliveries =
                (check state.deliveries (lookup to_str raw (delivery_header provider)) now).1;
          })
          run_id raw body provider _ event j p target named read understood triggering mapped _
          unseen)
