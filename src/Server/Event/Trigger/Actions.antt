-- ===== src/Server/Event/Trigger/Actions.antt =====
-- crates/jet-server/src/webhook/mod.rs: the actions on pull requests, in the words of each provider.
use jetrun.Core.Id.{strip_prefix}
use jetrun.Core.Id.RoundTrip.{strip_prefix-append}
use mathlib.Core.List.{append_assoc}
use mathlib.Core.Bool.{false≢true}
use jetrun.Prelude.{
  ℕ, zero, suc, ◌≤◌, ◌<◌, ◌≡◌, ◌≢◌, refl, sym, ap, ◌∙◌, inl, inr, none, some, ◌++◌, arith, true,
  false, length, length-append, Bytes, codes, bytes_eq, bytes_eq_iff, Bool-cases, Reflects, ||_iff,
  either,
}
use jetrun.Server.Event.{is_trigger_action}
use jetrun.Server.Event.Payload.{
  gitlab_action, bitbucket_action, trim_start_matches, trim_from, pullrequest, starts_with, is_some,
}
use jetrun.Server.Event.Trim.{repeated, trim_start_matches-IsTrimmed}
use jetrun.Server.Event.Trigger.{IsAction, IsGitlabAction, IsBitbucketAction}

pub IsAction-iff : (a : Bytes) → Reflects (is_trigger_action a) (IsAction a)
unfolding is_trigger_action
IsAction-iff a = ||_iff (bytes_eq_iff a (codes "opened")) (
    ||_iff (bytes_eq_iff a (codes "reopened"))
      (||_iff (bytes_eq_iff a (codes "synchronize")) (bytes_eq_iff a (codes "updated"))))

pub unlike : {event : Bytes} (x : Bytes) → bytes_eq event x ≡ false → event ≢ x
unlike {event} x differ q = false≢true (sym differ ∙ (bytes_eq_iff event x).1 q)

pub gitlab_action_iff :
    (verb : Bytes) → Reflects (is_trigger_action (gitlab_action verb)) (IsGitlabAction verb)
unfolding gitlab_action is_trigger_action bytes_eq
gitlab_action_iff verb = elim (Bool-cases (bytes_eq verb (codes "open"))) [
  | inl a ↦ rw a (λ h. inl ((bytes_eq_iff verb _).0 a), λ w. refl)
  | inr a ↦ elim (Bool-cases (bytes_eq verb (codes "reopen"))) [
    | inl b ↦ rw (a, b) (λ h. inr (inl ((bytes_eq_iff verb _).0 b)), λ w. refl)
    | inr b ↦ elim (Bool-cases (bytes_eq verb (codes "update"))) [
      | inl c ↦ rw (a, b, c) (λ h. inr (inr (inl ((bytes_eq_iff verb _).0 c))), λ w. refl)
      | inr c ↦
          rw (a, b, c)
            (
              λ h. inr (inr (inr ((IsAction-iff verb).0 h))),
              λ w.
                  either w (λ q. absurd (unlike (codes "open") a q))
                    λ w.
                      either w (λ q. absurd (unlike (codes "reopen") b q))
                        λ w.
                          either w (λ q. absurd (unlike (codes "update") c q))
                            (IsAction-iff verb).1,
            )
    ]
  ]
]

-- No action begins with the prefix of the events.
action-bare : (a : Bytes) → IsAction a → strip_prefix pullrequest a ≡ none
unfolding strip_prefix
action-bare a (inl q) = rw q refl
action-bare a (inr (inl q)) = rw q refl
action-bare a (inr (inr (inl q))) = rw q refl
action-bare a (inr (inr (inr q))) = rw q refl

trim_from-repeated :
    (fuel k : ℕ) (p a : Bytes)
    → 0 < length p
    → length (repeated k p ++ a) ≤ fuel
    → strip_prefix p a ≡ none
    → trim_from fuel p (repeated k p ++ a) ≡ a
unfolding trim_from
trim_from-repeated zero zero p a pos short bare = refl
trim_from-repeated (suc fuel) zero p a pos short bare = rw (trim_from, bare) refl
trim_from-repeated zero (suc k) p a pos short bare =
    absurd (omega (arith, length-append (p ++ repeated k p) a, length-append p (repeated k p)))
trim_from-repeated (suc fuel) (suc k) p a pos short bare =
    let next : strip_prefix p ((p ++ repeated k p) ++ a) ≡ some (repeated k p ++ a) =
      ap (strip_prefix p) (append_assoc p (repeated k p) a)
      ∙ strip_prefix-append p (repeated k p ++ a) in
    rw (trim_from, next)
      (trim_from-repeated fuel k p a pos
        (omega (
          arith,
          length-append (p ++ repeated k p) a,
          length-append p (repeated k p),
          length-append (repeated k p) a,
        ))
        bare)

bitbucket_trimmed :
    (event : Bytes)
    → starts_with pullrequest event ≡ true
    → is_trigger_action (trim_start_matches pullrequest event) ≡ true
    → IsBitbucketAction event
bitbucket_trimmed event starts h =
    let (bare, (k, e)) = trim_start_matches-IsTrimmed pullrequest event (omega arith) in
    go k e bare ((IsAction-iff _).0 h)
  where
    go :
        (k : ℕ) {rest : Bytes}
        → event ≡ repeated k pullrequest ++ rest
        → strip_prefix pullrequest rest ≡ none
        → IsAction rest
        → IsBitbucketAction event
    go zero e bare w =
        absurd (false≢true (sym (ap is_some (ap (strip_prefix pullrequest) e ∙ bare)) ∙ starts))
    go (suc k) e bare w = inr (k, _, e, w)

repeated_trimmed :
    (event : Bytes) (k : ℕ) (action : Bytes)
    → event ≡ repeated (suc k) pullrequest ++ action
    → IsAction action
    → trim_start_matches pullrequest event ≡ action
unfolding trim_start_matches
repeated_trimmed event k action e w = rw e (
    trim_from-repeated _ (suc k) pullrequest action (omega arith) (omega arith)
      (action-bare action w))

pub bitbucket_action_iff :
    (event : Bytes)
    → starts_with pullrequest event ≡ true
    → Reflects (is_trigger_action (bitbucket_action event)) (IsBitbucketAction event)
unfolding bitbucket_action is_trigger_action bytes_eq
bitbucket_action_iff event starts =
    elim (Bool-cases (bytes_eq event (codes "pullrequest:created"))) [
      | inl a ↦ rw a (λ h. inl ((bytes_eq_iff event _).0 a), λ w. refl)
      | inr a ↦ elim (Bool-cases (bytes_eq event (codes "pullrequest:updated"))) [
        | inl b ↦
            rw (a, b)
              (
                λ h. inr (0, codes "updated", (bytes_eq_iff event _).0 b, inr (inr (inr refl))),
                λ w. refl,
              )
        | inr b ↦
            rw (a, b)
              (
                bitbucket_trimmed event starts,
                λ w.
                    either w (λ q. absurd (unlike (codes "pullrequest:created") a q))
                      λ (k, action, e, q).
                        rw (repeated_trimmed event k action e q) ((IsAction-iff action).1 q),
              )
      ]
    ]

pub bitbucket_action-starts :
    (event : Bytes) → IsBitbucketAction event → starts_with pullrequest event ≡ true
bitbucket_action-starts event (inl q) = rw q (created)
  where
    created : starts_with pullrequest (codes "pullrequest:created") ≡ true
    created = ap is_some (strip_prefix-append pullrequest (codes "created"))
bitbucket_action-starts event (inr (k, action, e, q)) = ap is_some (
    ap (strip_prefix pullrequest) (e ∙ append_assoc pullrequest (repeated k pullrequest) action)
    ∙ strip_prefix-append pullrequest (repeated k pullrequest ++ action))
