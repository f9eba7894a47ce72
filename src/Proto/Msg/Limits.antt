-- ===== src/Proto/Msg/Limits.antt =====
-- crates/jet-proto/src/msg.rs: what the validation of the messages accepts.
use jetrun.Prelude.{
  ◌≤◌, ◌<◌, ◌≡◌, refl, ◌≢◌, ◌↔◌, inl, inr, Option, none, some, List, [], ◌∷◌, arith, ltb, ltb→lt,
  ltb→le, Bool-cases, length, All, Result, refuse_if, ◌>>◌, Bytes, codes, ok, err, ℕ,
}
use jetrun.Proto.Msg.{
  Invalid, bounded, nonempty_bounded, bounded_if_some, bounded_digests, validate_hello,
  validate_auth, validate_submit_run, validate_get_run, validate_cancel_run, validate_tail_logs,
  validate_cas_query, validate, Inbound, greet, authenticate, submit, get, cancel, tail, query,
}

abbrev AtMost : ℕ → Bytes → Type 0
AtMost most s = length s ≤ most

-- Some bytes, and not too many.
abbrev Between : ℕ → Bytes → Type 0
Between most s = (0 < length s) × (length s ≤ most)

abbrev IfSome : (Bytes → Type 0) → Option Bytes → Type 0
IfSome P none = Unit
IfSome P (some s) = P s

-- The documented limits of each message.
abbrev pub IsWithin : Inbound → Type 0
IsWithin (greet m) = AtMost 128 m.agent × (m.min_version ≤ m.max_version)
IsWithin (authenticate m) = Between 512 m.token
IsWithin (submit m) =
    Between 128 m.project
    × (Between 128 m.pipeline
        × (AtMost 1_048_576 m.definition
            × (IfSome (AtMost 64) m.commit_sha
                × (IfSome (AtMost 512) m.reference × IfSome (AtMost 128) m.idempotency_key))))
IsWithin (get m) = Between 64 m.run_id
IsWithin (cancel m) = Between 64 m.run_id
IsWithin (tail m) = Between 64 m.run_id × IfSome (AtMost 128) m.step
IsWithin (query m) = (length m.digests ≤ 4096) × All (AtMost 67) m.digests

-- A check that succeeds exactly on what has the property.
abbrev Accepts : Result (Unit {0}) Invalid → Type 0 → Type 0
Accepts check P = (check ≡ ok tt) ↔ P

>>-Accepts :
    (first rest : Result (Unit {0}) Invalid) (P Q : Type 0)
    → Accepts first P
    → Accepts rest Q
    → Accepts (first >> rest) (P × Q)
>>-Accepts (ok u) rest P Q p q = (λ h. (p.0 refl, q.0 h), λ h. q.1 h.1)
>>-Accepts (err e) rest P Q p q = (λ h. cc, λ h. absurd (err≢ok (p.1 h.0)))
  where
    err≢ok : ◌≢◌ {A = Result (Unit {0}) Invalid} (err e) (ok tt)
    err≢ok h = cc

refuse_if-Accepts : (a b : ℕ) (e : Invalid) → Accepts (refuse_if (ltb b a) e) (a ≤ b)
refuse_if-Accepts a b e = elim (Bool-cases (ltb b a)) [
  | inl p ↦ rw p (λ h. cc, λ h. absurd (omega (arith, ltb→lt b a p)))
  | inr p ↦ rw p (λ h. ltb→le b a p, λ h. refl)
]

module _ (field : Bytes) (most : ℕ) where
  bounded-Accepts : (s : Bytes) → Accepts (bounded field s most) (AtMost most s)
  unfolding bounded
  bounded-Accepts s = refuse_if-Accepts (length s) most (Invalid.too_long field (length s) most)

  nonempty_bounded-Accepts : (s : Bytes) → Accepts (nonempty_bounded field s most) (Between most s)
  unfolding nonempty_bounded
  nonempty_bounded-Accepts [] = (λ h. cc, λ h. absurd (omega arith))
  nonempty_bounded-Accepts (b ∷ s) =
      let a = bounded-Accepts (b ∷ s) in (λ h. (omega arith, a.0 h), λ h. a.1 h.1)

  bounded_if_some-Accepts :
      (o : Option Bytes) → Accepts (bounded_if_some field o most) (IfSome (AtMost most) o)
  bounded_if_some-Accepts none = (λ h. tt, λ h. refl)
  bounded_if_some-Accepts (some s) = bounded-Accepts s

digests-Accepts : (ds : List Bytes) → Accepts (bounded_digests ds) (All (AtMost 67) ds)
unfolding bounded_digests
digests-Accepts [] = (λ h. tt, λ h. refl)
digests-Accepts (d ∷ ds) =
    >>-Accepts _ _ _ _ (bounded-Accepts (codes "digest") 67 d) (digests-Accepts ds)

-- Each message that is validated on receipt is accepted exactly when it is within the documented
-- limits: every text as long as its field allows, the mandatory ones not empty, a definition of at most
-- a mebibyte, at most 4096 digests, and a range of versions that is not inverted.
pub validate-IsWithin : (m : Inbound) → (validate m ≡ ok tt) ↔ IsWithin m
unfolding validate validate_hello validate_auth validate_submit_run validate_get_run
    validate_cancel_run validate_tail_logs validate_cas_query
validate-IsWithin (greet m) =
    >>-Accepts _ _ _ _ (bounded-Accepts _ 128 m.agent)
      (refuse_if-Accepts m.min_version m.max_version _)
validate-IsWithin (authenticate m) = nonempty_bounded-Accepts _ 512 m.token
validate-IsWithin (submit m) = >>-Accepts _ _ _ _ (nonempty_bounded-Accepts _ 128 m.project) (
    >>-Accepts _ _ _ _ (nonempty_bounded-Accepts _ 128 m.pipeline) (
      >>-Accepts _ _ _ _ (refuse_if-Accepts (length m.definition) 1_048_576 _) (
        >>-Accepts _ _ _ _ (bounded_if_some-Accepts _ 64 m.commit_sha) (
          >>-Accepts _ _ _ _ (bounded_if_some-Accepts _ 512 m.reference)
            (bounded_if_some-Accepts _ 128 m.idempotency_key)))))
validate-IsWithin (get m) = nonempty_bounded-Accepts _ 64 m.run_id
validate-IsWithin (cancel m) = nonempty_bounded-Accepts _ 64 m.run_id
validate-IsWithin (tail m) =
    >>-Accepts _ _ _ _ (nonempty_bounded-Accepts _ 64 m.run_id)
      (bounded_if_some-Accepts _ 128 m.step)
validate-IsWithin (query m) =
    >>-Accepts _ _ _ _ (refuse_if-Accepts (length m.digests) 4096 _) (digests-Accepts m.digests)
