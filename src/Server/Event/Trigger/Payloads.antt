-- ===== src/Server/Event/Trigger/Payloads.antt =====
-- crates/jet-server/src/webhook/mod.rs: the payloads of each provider that start a run.
use jetrun.Core.Id.{strip_prefix}
use jetrun.Server.Event.Parse.{payload_of}
use jetrun.Server.Verify.{bitbucket, gitlab, github, Provider}
use jetrun.Prelude.{
  subst, ◌>>=◌, ok, Bool, Option, none, ok_or, >>=-Ensures, ◌≡◌, refl, sym, ◌∙◌, ◌≢◌, ◌↔◌, inl, inr,
  true, false, some, [], ◌∷◌, Bool-cases, Reflects, either, Result, Ensures, Bytes, codes, bytes_eq,
  bytes_eq_iff,
}
use mathlib.Core.Bool.{false≢true}
use jetrun.Server.Event.{EventKind, kind_triggers, push, tag, WebhookError, missing_field}
use jetrun.Server.Event.Json.{Value, null, walk, get, first, s}
use jetrun.Server.Event.Payload
use jetrun.Server.Event.Payload.{
  Parsed, or_empty, starts_with, tags, gitlab_action, bitbucket_action, trim_start_matches,
  pullrequest, is_tag, bitbucket_change, github_ref_kind, gitlab_push, pushed, change_kind,
}
use jetrun.Server.Event.Trigger.Actions.{
  IsAction-iff, unlike, gitlab_action_iff, bitbucket_action_iff, bitbucket_action-starts,
}
use jetrun.Server.Event.Trigger.{IsPushed, IsTrigger}

-- A text is not two texts that differ.
apart : {event : Bytes} (x y : Bytes) → bytes_eq x y ≡ false → event ≡ x → event ≢ y
apart x y differ a b = false≢true (sym differ ∙ (bytes_eq_iff x y).1 (sym a ∙ b))

abbrev pub Decides : Provider → Bytes → Value → Result Parsed WebhookError → Type 0
Decides provider event j parsed =
    Ensures (λ p. (kind_triggers p.kind ≡ true) ↔ IsTrigger provider event j) parsed

ref_triggers : (reference : Bytes) → kind_triggers (github_ref_kind reference) ≡ true
unfolding kind_triggers
ref_triggers reference = elim (Bool-cases (starts_with tags reference)) [
  | inl p ↦ rw p refl
  | inr p ↦ rw p refl
]

github-Decides : (event : Bytes) (j : Value) → Decides github event j (Payload.github event j)
unfolding Payload.github kind_triggers bytes_eq
github-Decides event j = elim (Bool-cases (bytes_eq event (codes "ping"))) [
  | inl a ↦
      let ping = (bytes_eq_iff event _).0 a in
      rw a (
        λ h. cc,
        λ w. absurd (
            either w (apart (codes "ping") (codes "push") refl ping)
              (λ q. apart (codes "ping") (codes "pull_request") refl ping q.0)),
      )
  | inr a ↦ elim (Bool-cases (bytes_eq event (codes "push"))) [
    | inl b ↦
        rw (a, b)
          (>>=-Ensures _ (ok_or (s j (codes "ref" ∷ [])) (missing_field (codes "ref"))) _
            (λ r e. (λ h. inl ((bytes_eq_iff event _).0 b), λ w. ref_triggers r)))
    | inr b ↦ elim (Bool-cases (bytes_eq event (codes "pull_request"))) [
      | inl c ↦
          rw (a, b, c)
            (
              λ h. inr ((bytes_eq_iff event _).0 c, (IsAction-iff _).0 h),
              λ w. either w (λ q. absurd (unlike (codes "push") b q)) (λ q. (IsAction-iff _).1 q.1),
            )
      | inr c ↦
          rw (a, b, c)
            (
              λ h. cc,
              λ w.
                  absurd
                    (either w (unlike (codes "push") b) (λ q. unlike (codes "pull_request") c q.0)),
            )
    ]
  ]
]

push_Decides :
    (kind : Bytes → EventKind) (repo : Bytes) (actor : Option Bytes) (event : Bytes) (j : Value)
    → ((name : Bytes) → kind_triggers (kind name) ≡ true)
    → IsTrigger gitlab event j
    → Decides gitlab event j (gitlab_push kind repo actor j)
push_Decides kind repo actor event j triggers w =
    >>=-Ensures _ (ok_or (s j (codes "ref" ∷ [])) (missing_field (codes "ref"))) _
      (λ r e. (λ h. w, λ v. triggers _))

gitlab-Decides : (event : Bytes) (j : Value) → Decides gitlab event j (Payload.gitlab event j)
unfolding Payload.gitlab kind_triggers bytes_eq
gitlab-Decides event j = elim (Bool-cases (bytes_eq event (codes "Push Hook"))) [
  | inl a ↦ rw a (push_Decides push _ _ event j (λ name. refl) (inl ((bytes_eq_iff event _).0 a)))
  | inr a ↦ elim (Bool-cases (bytes_eq event (codes "Tag Push Hook"))) [
    | inl b ↦
        rw (a, b)
          (push_Decides tag _ _ event j (λ name. refl) (inr (inl ((bytes_eq_iff event _).0 b))))
    | inr b ↦ elim (Bool-cases (bytes_eq event (codes "Merge Request Hook"))) [
      | inl c ↦
          rw (a, b, c)
            (
              λ h. inr (inr ((bytes_eq_iff event _).0 c, (gitlab_action_iff _).0 h)),
              λ w.
                  either w (λ q. absurd (unlike (codes "Push Hook") a q))
                    (λ v.
                      either v (λ q. absurd (unlike (codes "Tag Push Hook") b q))
                        (λ q. (gitlab_action_iff _).1 q.1)),
            )
      | inr c ↦
          rw (a, b, c)
            (
              λ h. cc,
              λ w. absurd (
                  either w (unlike (codes "Push Hook") a) (λ v.
                    either v (unlike (codes "Tag Push Hook") b)
                      (λ q. unlike (codes "Merge Request Hook") c q.0))),
            )
    ]
  ]
]

-- What follows a new state that is there.
abbrev IsNew : Option Value → Type 0
IsNew o = (new : Value) × (o ≡ some new) × (new ≢ null)

change_kind_triggers :
    (tagged : Bool) (name : Bytes) → kind_triggers (change_kind tagged name) ≡ true
unfolding kind_triggers
change_kind_triggers true name = refl
change_kind_triggers false name = refl

module _ (repo : Bytes) (actor : Option Bytes) where
  change_iff :
      (o : Option Value) → Reflects (kind_triggers (bitbucket_change repo actor o).kind) (IsNew o)
  unfolding kind_triggers
  change_iff none = (λ h. cc, λ w. cc (w.1))
  change_iff (some null) = (λ h. cc, λ w. absurd (w.2 cc))
  change_iff (some (Value.bool b)) =
      (λ h. (Value.bool b, refl, λ e. cc), λ w. change_kind_triggers _ _)
  change_iff (some (Value.number n)) =
      (λ h. (Value.number n, refl, λ e. cc), λ w. change_kind_triggers _ _)
  change_iff (some (Value.string text)) =
      (λ h. (Value.string text, refl, λ e. cc), λ w. change_kind_triggers _ _)
  change_iff (some (Value.array values)) =
      (λ h. (Value.array values, refl, λ e. cc), λ w. change_kind_triggers _ _)
  change_iff (some (Value.object members)) =
      (λ h. (Value.object members, refl, λ e. cc), λ w. change_kind_triggers _ _)

pushed_Decides :
    (repo : Bytes) (actor : Option Bytes) (event : Bytes) (j : Value) (o : Option Value)
    → o ≡ first (walk (codes "push" ∷ codes "changes" ∷ []) j)
    → event ≡ codes "repo:push"
    → Decides bitbucket event j (
        ok_or o (missing_field (codes "push.changes")) >>= λ change.
        ok (bitbucket_change repo actor (get (codes "new") change)))
unfolding strip_prefix
pushed_Decides repo actor event j none e p = tt
pushed_Decides repo actor event j (some change) e p =
    let reads = change_iff repo actor (get (codes "new") change) in
    (
      λ h. let (new, a, b) = reads.0 h in inl (p, (change, new, sym e, a, b)),
      λ w.
          either w (λ q. reads.1 (new_of q.1))
            (λ q. absurd (false≢true (rw p at (bitbucket_action-starts event q)))),
    )
  where
    same : (c : Value) → first (walk (codes "push" ∷ codes "changes" ∷ []) j) ≡ some c → c ≡ change
    same c h = some-injective (sym h ∙ sym e)
      where
        some-injective : some c ≡ some change → c ≡ change
        some-injective h = cc

    new_of : IsPushed j → IsNew (get (codes "new") change)
    new_of (c, new, a, b, n) = (new, subst (λ v. get (codes "new") v ≡ some new) (same c a) b, n)

bitbucket-Decides :
    (event : Bytes) (j : Value) → Decides bitbucket event j (Payload.bitbucket event j)
unfolding Payload.bitbucket kind_triggers bytes_eq strip_prefix
bitbucket-Decides event j = elim (Bool-cases (bytes_eq event (codes "diagnostics:ping"))) [
  | inl a ↦
      let ping = (bytes_eq_iff event _).0 a in
      rw a (
        λ h. cc,
        λ w. absurd (
            either w (λ q. apart (codes "diagnostics:ping") (codes "repo:push") refl ping q.0)
              (λ q. false≢true (rw ping at (bitbucket_action-starts event q)))),
      )
  | inr a ↦ elim (Bool-cases (bytes_eq event (codes "repo:push"))) [
    | inl b ↦ rw (a, b) (pushed_Decides _ _ event j _ refl ((bytes_eq_iff event _).0 b))
    | inr b ↦ elim (Bool-cases (starts_with pullrequest event)) [
      | inl c ↦
          rw (a, b, c)
            (
              λ h. inr ((bitbucket_action_iff event c).0 h),
              λ w.
                  either w (λ q. absurd (unlike (codes "repo:push") b q.0))
                    (bitbucket_action_iff event c).1,
            )
      | inr c ↦
          rw (a, b, c)
            (
              λ h. cc,
              λ w. absurd (
                  either w (λ q. unlike (codes "repo:push") b q.0)
                    (λ q. false≢true (sym c ∙ bitbucket_action-starts event q))),
            )
    ]
  ]
]

pub payload-Decides :
    (provider : Provider) (event : Bytes) (j : Value)
    → Decides provider event j (payload_of provider event j)
unfolding payload_of
payload-Decides github event j = github-Decides event j
payload-Decides gitlab event j = gitlab-Decides event j
payload-Decides bitbucket event j = bitbucket-Decides event j
