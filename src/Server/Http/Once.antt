-- ===== src/Server/Http/Once.antt =====
-- crates/jet-server/src/http.rs: a delivery starts one run.
use jetrun.Prelude.{
  ◌+◌, ◌-◌, ◌≤◌, ◌<◌, ◌≡◌, refl, sym, ◌∙◌, subst, ◌≢◌, inl, inr, true, Option, some, List, arith,
  Bool-cases, length, All, Result, Bytes, ok, err, ℕ, ap,
}
use jetrun.Server.Verify.{Provider, delivery_header, Verified, VerifyError}
use jetrun.Server.Dedupe.{
  DeliveryGuard, fresh, duplicate, is_identified, is_repeat, get, pruned, check,
}
use jetrun.Server.Dedupe.Bounds.{IsBounded}
use jetrun.Server.Dedupe.Replay.{checks, check-replayed}
use jetrun.Server.Event.Json.{Value}
use jetrun.Server.State.{ServerState}
use jetrun.Server.Http.Headers.{RawHeaders, lookup}
use jetrun.Server.Http.{accepted, provider_of, checked, webhook, TriggerBody, Request, serve_all}
use jetrun.Server.Http.Webhook.{webhook-Starts, rejected-apart}
use jetrun.Server.Http.Requests.{serve_all-checks}

-- An id that can be stored is fresh, if it is not a duplicate.
check-fresh_of :
    (g : DeliveryGuard) (id : Bytes) (now : ℕ)
    → is_identified id ≡ true
    → (check g (some id) now).0 ≢ duplicate
    → (check g (some id) now).0 ≡ fresh
unfolding check
check-fresh_of g id now p n = elim (Bool-cases (is_repeat g.ttl now (get id (pruned g now)))) [
  | inl r ↦ absurd (n (rw (p, r) refl))
  | inr r ↦ rw (p, r) refl
]

module _ (to_str : Bytes → Option Bytes) (debug_text : Bytes → Bytes) (hmac : Bytes → Bytes → Bytes)
    (hex_decode : Bytes → Option Bytes) (from_slice : Bytes → Result Value Bytes)
    (body_of : Bytes → Result TriggerBody Bytes) where
  -- A request that starts a run has been checked.
  module _ (state : ServerState) (now : ℕ) (run_id id : Bytes) (raw : RawHeaders) (body : Bytes)
      (provider : Provider) where
    checked-after :
        (r : Result Verified VerifyError)
        → (checked to_str debug_text hmac hex_decode from_slice state now run_id provider raw body
            r).0
          ≡ accepted id
        → (checked to_str debug_text hmac hex_decode from_slice state now run_id provider raw body
            r).1
          ≡ record state {
            deliveries =
                (check state.deliveries (lookup to_str raw (delivery_header provider)) now).1;
          }
    checked-after (err e) h = absurd (rejected-apart e id h)
    checked-after (ok v) h = refl

    webhook-after :
        (name : Bytes)
        → provider_of name ≡ some provider
        → (webhook to_str debug_text hmac hex_decode from_slice state now run_id name raw body).0
          ≡ accepted id
        → (webhook to_str debug_text hmac hex_decode from_slice state now run_id name raw body).1
          ≡ record state {
            deliveries =
                (check state.deliveries (lookup to_str raw (delivery_header provider)) now).1;
          }
    unfolding webhook
    webhook-after name p h = rw p (checked-after _ (rw p at h))

  webhook-unseen :
      (state : ServerState) (now : ℕ) (run_id id name : Bytes) (raw : RawHeaders) (body : Bytes)
      (provider : Provider)
      → provider_of name ≡ some provider
      → (webhook to_str debug_text hmac hex_decode from_slice state now run_id name raw body).0
        ≡ accepted id
      → (check state.deliveries (lookup to_str raw (delivery_header provider)) now).0 ≢ duplicate
  webhook-unseen state now run_id id name raw body provider p h =
      let (found, key, v, event, start) =
        webhook-Starts to_str debug_text hmac hex_decode from_slice now run_id id name raw body
          state h in
      subst
        (λ q. (check state.deliveries (lookup to_str raw (delivery_header q)) now).0 ≢ duplicate)
        (some-injective (sym start.named ∙ p)) start.unseen
    where
      some-injective : {a b : Provider} → some a ≡ some b → a ≡ b
      some-injective h = cc

  -- Once a delivery with an id that can be stored has started a run, no delivery under that id starts
  -- another, whatever it carries and whichever requests came between, as long as those came less than the
  -- guard's TTL after it and the guard has room for them all, and the TTL has not passed.
  pub webhook-once :
      (state : ServerState) (now : ℕ) (run_id id name : Bytes) (raw : RawHeaders) (body : Bytes)
      (provider : Provider) (delivery : Bytes) (later : List (ℕ × Bytes × Request)) (again : ℕ)
      (run_again id_again name_again : Bytes) (raw_again : RawHeaders) (body_again : Bytes)
      (provider_again : Provider)
      → let after =
          (webhook to_str debug_text hmac hex_decode from_slice state now run_id name raw body).1 in
        IsBounded state.deliveries
        → provider_of name ≡ some provider
        → lookup to_str raw (delivery_header provider) ≡ some delivery
        → is_identified delivery ≡ true
        → (webhook to_str debug_text hmac hex_decode from_slice state now run_id name raw body).0
          ≡ accepted id
        → All (λ r. r.0 - now < state.deliveries.ttl) later
        → length after.deliveries.seen + length later ≤ after.deliveries.capacity
        → again - now < state.deliveries.ttl
        → provider_of name_again ≡ some provider_again
        → lookup to_str raw_again (delivery_header provider_again) ≡ some delivery
        → (webhook to_str debug_text hmac hex_decode from_slice
            (serve_all to_str debug_text hmac hex_decode from_slice body_of later after).1
            again
            run_again
            name_again
            raw_again
            body_again).0
          ≢ accepted id_again
  webhook-once state now run_id id name raw body provider delivery later again run_again id_again
        name_again raw_again body_again provider_again bounded named found known started times room
        soon named_again found_again restarted =
      let after =
        (webhook to_str debug_text hmac hex_decode from_slice state now run_id name raw body).1 in
      let (ids, a, few, timely) =
        serve_all-checks to_str debug_text hmac hex_decode from_slice body_of now
          state.deliveries.ttl later after in
      let e : after ≡ record state { deliveries = (check state.deliveries (some delivery) now).1 } =
        subst (λ o. after ≡ record state { deliveries = (check state.deliveries o now).1 }) found
          (webhook-after state now run_id id raw body provider name named started) in
      let guard : after.deliveries ≡ (check state.deliveries (some delivery) now).1 =
        ap (λ (x : ServerState). x.deliveries) e in
      let unseen = webhook-unseen state now run_id id name raw body provider named started in
      let new_one =
        check-fresh_of state.deliveries delivery now known
          (subst (λ o. (check state.deliveries o now).0 ≢ duplicate) found unseen) in
      let replayed =
        check-replayed state.deliveries delivery now ids again bounded new_one (timely times)
          (subst (λ g. length g.seen + length ids ≤ g.capacity) guard (omega (arith, few, room)))
          soon in
      let final : (serve_all to_str debug_text hmac hex_decode from_slice body_of later
            after).1.deliveries
          ≡ checks (check state.deliveries (some delivery) now).1 ids =
        ap (λ (x : ServerState). x.deliveries) a ∙ ap (λ g. checks g ids) guard in
      webhook-unseen _ again run_again id_again name_again raw_again body_again provider_again
        named_again restarted (rw (found_again, final) replayed)
