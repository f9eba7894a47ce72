-- ===== src/Server/Event/Trigger.antt =====
-- crates/jet-server/src/webhook/mod.rs: which deliveries start a run.
pub mod Actions
pub mod Payloads
pub mod Exact
use jetrun.Core.Id.{strip_prefix}
use jetrun.Server.Event.Parse.{payload_of, json_error, parse}
use jetrun.Server.Verify.{
  event_header, delivery_header, Verified, bitbucket, gitlab, github, Provider,
}
use jetrun.Server.Event.Trim.{repeated}
use jetrun.Prelude.{
  ℕ, suc, ◌++◌, ap, subst, ok_or-eq_ok, ◌>>=◌, >>=-eq-ok, Ensures-ok, ok, err, Bool, Option, none,
  ok_or, >>=-Ensures, ◌≡◌, refl, sym, ◌∙◌, ◌≢◌, ◌↔◌, ◌⊎◌, inl, inr, true, false, some, [], ◌∷◌,
  Bool-cases, Reflects, ||_iff, either, Result, Ensures, Bytes, codes, bytes_eq, bytes_eq_iff,
}
use mathlib.Core.Bool.{false≢true}
use jetrun.Server.Event.{
  EventKind, is_trigger_action, kind_triggers, push, tag, WebhookError, missing_field, TriggerEvent,
  should_trigger,
}
use jetrun.Server.Event.Json.{Value, null, walk, get, first, s}
use jetrun.Server.Event.Payload
use jetrun.Server.Event.Payload.{
  Parsed, or_empty, starts_with, tags, gitlab_action, bitbucket_action, trim_start_matches,
  pullrequest, is_tag, bitbucket_change, github_ref_kind, gitlab_push, pushed, change_kind,
}

-- An action on a pull request that changes its code or opens it.
abbrev pub IsAction : Bytes → Type 0
IsAction action =
    (action ≡ codes "opened")
    ⊎ ((action ≡ codes "reopened") ⊎ ((action ≡ codes "synchronize") ⊎ (action ≡ codes "updated")))

-- The action of a GitHub pull request, and the raw one of a GitLab merge request.
abbrev pub github_verb : Value → Bytes
github_verb j = or_empty (s j (codes "action" ∷ []))

abbrev pub gitlab_verb : Value → Bytes
gitlab_verb j = or_empty (s j (codes "object_attributes" ∷ codes "action" ∷ []))

-- The first change of a Bitbucket push has a new state.
abbrev pub IsPushed : Value → Type 0
IsPushed j =
    (change : Value) × (new : Value) × (first (walk (codes "push" ∷ codes "changes" ∷ []) j)
      ≡ some change)
    × (get (codes "new") change ≡ some new)
    × (new ≢ null)

-- The actions on a GitLab merge request that count: GitLab's own words, and the common ones, which are
-- taken as they are.
abbrev pub IsGitlabAction : Bytes → Type 0
IsGitlabAction verb =
    (verb ≡ codes "open") ⊎ ((verb ≡ codes "reopen") ⊎ ((verb ≡ codes "update") ⊎ IsAction verb))

-- The Bitbucket events on pull requests that count: the creation, and a common action behind the prefix,
-- which may stand there more than once.
abbrev pub IsBitbucketAction : Bytes → Type 0
IsBitbucketAction event =
    (event ≡ codes "pullrequest:created")
    ⊎ ((k : ℕ) × (action : Bytes) × (event ≡ repeated (suc k) (codes "pullrequest:") ++ action)
        × IsAction action)

-- The deliveries that start a run, in the words of each provider. A push of GitHub or GitLab is any,
-- also one that says that a branch was deleted.
abbrev pub IsTrigger : Provider → Bytes → Value → Type 0
IsTrigger github event j =
    (event ≡ codes "push") ⊎ ((event ≡ codes "pull_request") × IsAction (github_verb j))
IsTrigger gitlab event j =
    (event ≡ codes "Push Hook")
    ⊎ ((event ≡ codes "Tag Push Hook")
        ⊎ ((event ≡ codes "Merge Request Hook") × IsGitlabAction (gitlab_verb j)))
IsTrigger bitbucket event j = ((event ≡ codes "repo:push") × IsPushed j) ⊎ IsBitbucketAction event
