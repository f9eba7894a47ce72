-- ===== src/Server/Http/Requests.antt =====
-- crates/jet-server/src/http.rs: what a sequence of requests does to the state, and that a delivery
-- starts one run.
use jetrun.Prelude.{
  ◌-◌, ◌<◌, sym, ap, ◌∙◌, ◌++◌, length-append, All-append, ◌≤◌, ◌≡◌, refl, inl, inr, Option, none,
  some, List, [], ◌∷◌, arith, ltb, Bool-cases, length, All, Result, Bytes, ok, err, ℕ,
}
use jetrun.Server.Dedupe.Bounds.{IsBounded, check-IsBounded}
use jetrun.Server.Dedupe.Replay.{checks}
use jetrun.Server.Verify.{Provider, delivery_header, Verified, VerifyError}
use jetrun.Server.Dedupe.{DeliveryGuard, check}
use jetrun.Server.Event.{max_body_bytes}
use jetrun.Server.Event.Json.{Value}
use jetrun.Server.State.{ServerState}
use jetrun.Server.Http.Headers.{RawHeaders, lookup}
use jetrun.Server.Http.{
  Response, provider_of, checked, received, webhook, TriggerBody, Route, healthz, webhooks,
  api_trigger, Request, limited, routed, respond, serve_all,
}

-- What a request does to the state at a time: at most one check of the guard.
abbrev pub IsChecked : ServerState → ℕ → ServerState → Type 0
IsChecked before now after =
    (ids : List (Option Bytes × ℕ)) × (after
      ≡ record before { deliveries = checks before.deliveries ids })
    × (length ids ≤ 1)
    × All (λ c. c.1 ≡ now) ids

unchecked : (state : ServerState) (now : ℕ) → IsChecked state now state
unfolding checks
unchecked state now = ([], refl, omega arith, tt)

checks-append :
    (g : DeliveryGuard) (xs ys : List (Option Bytes × ℕ))
    → checks g (xs ++ ys) ≡ checks (checks g xs) ys
unfolding checks
checks-append g [] ys = refl
checks-append g ((id, now) ∷ xs) ys = checks-append (check g id now).1 xs ys

checks-IsBounded :
    (g : DeliveryGuard) (ids : List (Option Bytes × ℕ)) → IsBounded g → IsBounded (checks g ids)
unfolding checks
checks-IsBounded g [] b = b
checks-IsBounded g ((id, now) ∷ ids) b =
    checks-IsBounded (check g id now).1 ids (check-IsBounded g id now b)

All-at :
    (at ttl now : ℕ) (ids : List (Option Bytes × ℕ))
    → now - at < ttl
    → All (λ c. c.1 ≡ now) ids
    → All (λ c. c.1 - at < ttl) ids
All-at at ttl now [] h a = tt
All-at at ttl now (c ∷ ids) h (e, a) = (rw e h, All-at at ttl now ids h a)

module _ (to_str : Bytes → Option Bytes) (debug_text : Bytes → Bytes) (hmac : Bytes → Bytes → Bytes)
    (hex_decode : Bytes → Option Bytes) (from_slice : Bytes → Result Value Bytes)
    (body_of : Bytes → Result TriggerBody Bytes) where
  module _ (state : ServerState) (now : ℕ) (run_id : Bytes) (raw : RawHeaders) (body : Bytes) where
    checked-IsChecked :
        (provider : Provider) (r : Result Verified VerifyError)
        → IsChecked state now
            (checked to_str debug_text hmac hex_decode from_slice state now run_id provider raw body
              r).1
    unfolding checks
    checked-IsChecked provider (err e) = unchecked state now
    checked-IsChecked provider (ok v) =
        ((lookup to_str raw (delivery_header provider), now) ∷ [], refl, omega arith, (refl, tt))

    received-IsChecked :
        (name : Bytes) (p : Option Provider)
        → IsChecked state now
            (received to_str debug_text hmac hex_decode from_slice state now run_id name raw body
              p).1
    received-IsChecked name none = unchecked state now
    received-IsChecked name (some provider) = checked-IsChecked provider _

    limited-IsChecked :
        (answer : Response × ServerState)
        → IsChecked state now answer.1
        → IsChecked state now
            (limited to_str debug_text hmac hex_decode from_slice body_of state body answer).1
    limited-IsChecked answer h = elim (Bool-cases (ltb max_body_bytes (length body))) [
      | inl p ↦ rw p (unchecked state now)
      | inr p ↦ rw p h
    ]

    routed-IsChecked :
        (route : Route)
        → IsChecked state now
            (routed to_str debug_text hmac hex_decode from_slice body_of state now run_id raw body
              route).1
    unfolding webhook
    routed-IsChecked healthz = unchecked state now
    routed-IsChecked (webhooks called) =
        limited-IsChecked _ (received-IsChecked called (provider_of called))
    routed-IsChecked api_trigger = limited-IsChecked _ (unchecked state now)

  respond-IsChecked :
      (state : ServerState) (now : ℕ) (run_id : Bytes) (r : Request)
      → IsChecked state now
          (respond to_str debug_text hmac hex_decode from_slice body_of state now run_id r).1
  unfolding respond
  respond-IsChecked state now run_id r = routed-IsChecked state now run_id r.headers r.body r.route

  -- What a sequence of requests does to the state: checks of the guard, at the times of the requests.
  pub serve_all-checks :
      (at ttl : ℕ) (later : List (ℕ × Bytes × Request)) (state : ServerState)
      → (ids : List (Option Bytes × ℕ)) × ((serve_all to_str debug_text hmac hex_decode from_slice
            body_of later state).1
          ≡ record state { deliveries = checks state.deliveries ids })
        × (length ids ≤ length later)
        × (All (λ r. r.0 - at < ttl) later → All (λ c. c.1 - at < ttl) ids)
  unfolding serve_all checks
  serve_all-checks at ttl [] state = ([], refl, omega arith, λ h. tt)
  serve_all-checks at ttl ((now, run_id, r) ∷ later) state =
      let (ids, a, b, c) = respond-IsChecked state now run_id r in
      let after =
        (respond to_str debug_text hmac hex_decode from_slice body_of state now run_id r).1 in
      let (more, d, e, f) = serve_all-checks at ttl later after in
      (
        ids ++ more,
        d
            ∙ ap (λ (x : ServerState). record x { deliveries = checks x.deliveries more }) a
            ∙ ap (λ g. record state { deliveries = g })
                (sym (checks-append state.deliveries ids more)),
        omega (arith, length-append ids more),
        λ h. All-append _ ids more (All-at at ttl now ids h.0 c) (f h.1),
      )

  -- Whatever requests are served, in whatever order, the state stays sound: the guard remembers at most
  -- as many deliveries as its capacity, none of them twice, and no request changes a secret or which
  -- repositories are configured.
  pub serve_all-IsBounded :
      (requests : List (ℕ × Bytes × Request)) (state : ServerState)
      → IsBounded state.deliveries
      → let after =
          (serve_all to_str debug_text hmac hex_decode from_slice body_of requests state).1 in
        IsBounded after.deliveries
        × (after.secrets ≡ state.secrets)
        × (after.repo_map ≡ state.repo_map)
  serve_all-IsBounded requests state b =
      let (ids, a, c, d) = serve_all-checks 0 0 requests state in
      rw a (checks-IsBounded state.deliveries ids b, refl, refl)
