-- ===== src/Server/Event/Payload.antt =====
-- crates/jet-server/src/webhook/mod.rs: the payloads of the three providers.
use jetrun.Prelude.{
  ℕ, zero, suc, Bool, true, false, Option, none, some, [], ◌∷◌, ◌++◌, if◌then◌else◌, length, Result,
  ok, ok_or, ◌>>=◌, Bytes, codes, bytes_eq,
}
use jetrun.Core.Id.{strip_prefix, unwrap_or}
use jetrun.Server.Event.{
  EventKind, push, tag, pull_request, ping, ignored, WebhookError, missing_field,
}
use jetrun.Server.Event.Json.{Value, null, walk, get, first, s, u}

-- The tuple `Parsed`, with names.
pub record Parsed : Type 0 where
  pub kind : EventKind
  pub repo : Bytes
  pub commit_sha : Option Bytes
  pub reference : Option Bytes
  pub actor : Option Bytes

abbrev pub or_else {ℓ} : {A : Type ℓ} → Option A → Option A → Option A
or_else none second = second
or_else (some a) second = some a

abbrev pub or_zero : Option ℕ → ℕ
or_zero none = 0
or_zero (some n) = n

-- `unwrap_or_default`
abbrev pub or_empty : Option Bytes → Bytes
or_empty o = unwrap_or o []

abbrev pub is_some : Option Bytes → Bool
is_some none = false
is_some (some r) = true

-- `str::starts_with`
abbrev pub starts_with : Bytes → Bytes → Bool
starts_with p text = is_some (strip_prefix p text)

abbrev pub heads : Bytes
heads = codes "refs/heads/"

abbrev pub tags : Bytes
tags = codes "refs/tags/"

unfoldable pub short_ref : Bytes → Bytes
short_ref r = unwrap_or (or_else (strip_prefix heads r) (strip_prefix tags r)) r

-- An event that is acknowledged and not acted on.
abbrev pub quiet : EventKind → Bytes → Option Bytes → Parsed
quiet kind repo actor = record {
  kind = kind;
  repo = repo;
  commit_sha = none;
  reference = none;
  actor = actor;
}

-- GitHub sends branches and tags through one event; the prefix of the reference tells them apart.
abbrev pub github_ref_kind : Bytes → EventKind
github_ref_kind reference =
    if starts_with tags reference then tag (short_ref reference) else push (short_ref reference)

unfoldable pub github : Bytes → Value → Result Parsed WebhookError
github event j =
    let repo = or_empty (s j (codes "repository" ∷ codes "full_name" ∷ [])) in
    if bytes_eq event (codes "ping")
    then ok (quiet ping repo none)
    else if bytes_eq event (codes "push")
    then (do
      reference ← ok_or (s j (codes "ref" ∷ [])) (missing_field (codes "ref"))
      ok (record {
        kind = github_ref_kind reference;
        repo = repo;
        commit_sha = s j (codes "after" ∷ []);
        reference = some reference;
        actor = s j (codes "pusher" ∷ codes "name" ∷ []);
      }))
    else if bytes_eq event (codes "pull_request")
    then ok (record {
      kind =
          pull_request
            (or_zero (
              or_else (u j (codes "number" ∷ []))
                (u j (codes "pull_request" ∷ codes "number" ∷ []))))
            (or_empty (s j (codes "action" ∷ [])))
            (or_empty (s j (codes "pull_request" ∷ codes "head" ∷ codes "ref" ∷ [])))
            (s j (codes "pull_request" ∷ codes "base" ∷ codes "ref" ∷ []));
      repo = repo;
      commit_sha = s j (codes "pull_request" ∷ codes "head" ∷ codes "sha" ∷ []);
      reference = none;
      actor = s j (codes "sender" ∷ codes "login" ∷ []);
    })
    else ok (quiet (ignored event) repo none)

-- The two kinds of push of GitLab.
abbrev pub gitlab_push :
    (Bytes → EventKind) → Bytes → Option Bytes → Value → Result Parsed WebhookError
gitlab_push kind repo actor j = do
  reference ← ok_or (s j (codes "ref" ∷ [])) (missing_field (codes "ref"))
  ok (record {
    kind = kind (short_ref reference);
    repo = repo;
    commit_sha = or_else (s j (codes "checkout_sha" ∷ [])) (s j (codes "after" ∷ []));
    reference = some reference;
    actor = actor;
  })

unfoldable pub gitlab_action : Bytes → Bytes
gitlab_action raw =
    if bytes_eq raw (codes "open")
    then codes "opened"
    else if bytes_eq raw (codes "reopen")
    then codes "reopened"
    else if bytes_eq raw (codes "update")
    then codes "synchronize"
    else raw

unfoldable pub gitlab : Bytes → Value → Result Parsed WebhookError
gitlab event j =
    let repo = or_empty (s j (codes "project" ∷ codes "path_with_namespace" ∷ [])) in
    let actor =
      or_else (s j (codes "user_username" ∷ [])) (s j (codes "user" ∷ codes "username" ∷ [])) in
    if bytes_eq event (codes "Push Hook")
    then gitlab_push push repo actor j
    else if bytes_eq event (codes "Tag Push Hook")
    then gitlab_push tag repo actor j
    else if bytes_eq event (codes "Merge Request Hook")
    then ok (record {
      kind =
          pull_request (or_zero (u j (codes "object_attributes" ∷ codes "iid" ∷ [])))
            (gitlab_action (or_empty (s j (codes "object_attributes" ∷ codes "action" ∷ []))))
            (or_empty (s j (codes "object_attributes" ∷ codes "source_branch" ∷ [])))
            (s j (codes "object_attributes" ∷ codes "target_branch" ∷ []));
      repo = repo;
      commit_sha = s j (codes "object_attributes" ∷ codes "last_commit" ∷ codes "id" ∷ []);
      reference = none;
      actor = actor;
    })
    else ok (quiet (ignored event) repo none)

-- `trim_start_matches`: the prefix is taken off as often as it stands there. The fuel is the length
-- of the text.
unfoldable pub trim_from : ℕ → Bytes → Bytes → Bytes
trim_from zero p text = text
trim_from (suc fuel) p text = elim (strip_prefix p text) [
  | none ↦ text
  | some rest ↦ trim_from fuel p rest
]

unfoldable pub trim_start_matches : Bytes → Bytes → Bytes
trim_start_matches p text = trim_from (length text) p text

abbrev pub pullrequest : Bytes
pullrequest = codes "pullrequest:"

unfoldable pub bitbucket_action : Bytes → Bytes
bitbucket_action event =
    if bytes_eq event (codes "pullrequest:created")
    then codes "opened"
    else if bytes_eq event (codes "pullrequest:updated")
    then codes "synchronize"
    else trim_start_matches pullrequest event

abbrev pub deleted : Bytes → Option Bytes → Parsed
deleted repo actor = quiet (ignored (codes "repo:push (branch deleted)")) repo actor

-- The kind of a change, and its reference.
abbrev pub change_kind : Bool → Bytes → EventKind
change_kind true name = tag name
change_kind false name = push name

abbrev pub change_reference : Bool → Bytes → Bytes
change_reference true name = tags ++ name
change_reference false name = heads ++ name

abbrev pub is_tag : Option Bytes → Bool
is_tag none = false
is_tag (some type) = bytes_eq type (codes "tag")

abbrev pub pushed : Bytes → Option Bytes → Value → Parsed
pushed repo actor new =
    let name = or_empty (s new (codes "name" ∷ [])) in
    let tagged = is_tag (s new (codes "type" ∷ [])) in
    record {
      kind = change_kind tagged name;
      repo = repo;
      commit_sha = s new (codes "target" ∷ codes "hash" ∷ []);
      reference = some (change_reference tagged name);
      actor = actor;
    }

-- `new` of a change is null when the branch was deleted.
abbrev pub bitbucket_change : Bytes → Option Bytes → Option Value → Parsed
bitbucket_change repo actor none = deleted repo actor
bitbucket_change repo actor (some null) = deleted repo actor
bitbucket_change repo actor (some new) = pushed repo actor new

unfoldable pub bitbucket : Bytes → Value → Result Parsed WebhookError
bitbucket event j =
    let repo = or_empty (s j (codes "repository" ∷ codes "full_name" ∷ [])) in
    let actor =
      or_else (s j (codes "actor" ∷ codes "nickname" ∷ []))
        (s j (codes "actor" ∷ codes "display_name" ∷ [])) in
    if bytes_eq event (codes "diagnostics:ping")
    then ok (quiet ping repo none)
    else if bytes_eq event (codes "repo:push")
    then (do
      change ←
          ok_or (first (walk (codes "push" ∷ codes "changes" ∷ []) j))
            (missing_field (codes "push.changes"))
      ok (bitbucket_change repo actor (get (codes "new") change)))
    else if starts_with pullrequest event
    then ok (record {
      kind =
          pull_request (or_zero (u j (codes "pullrequest" ∷ codes "id" ∷ [])))
            (bitbucket_action event)
            (or_empty
              (s j (codes "pullrequest" ∷ codes "source" ∷ codes "branch" ∷ codes "name" ∷ [])))
            (s j (codes "pullrequest" ∷ codes "destination" ∷ codes "branch" ∷ codes "name" ∷ []));
      repo = repo;
      commit_sha = s j (codes "pullrequest" ∷ codes "source" ∷ codes "commit" ∷ codes "hash" ∷ []);
      reference = none;
      actor = actor;
    })
    else ok (quiet (ignored event) repo none)
