-- ===== src/Server/Event/Refs.antt =====
-- crates/jet-server/src/webhook/mod.rs: the names of branches and tags, and their references.
use jetrun.Prelude.{
  ◌≡◌, refl, inl, inr, Bool, true, false, Option, none, some, [], ◌∷◌, ◌++◌, Bool-cases, ok_or,
  Ensures, >>=-Ensures, Ensures-ok, Bytes, codes, bytes_eq, ok,
}
use jetrun.Core.Id.{strip_prefix}
use jetrun.Core.Id.RoundTrip.{strip_prefix-append}
use jetrun.Server.Verify.{Provider, github, gitlab, bitbucket}
use jetrun.Server.Event.{EventKind, push, tag, pull_request, ping, ignored, missing_field}
use jetrun.Server.Event.Json.{Value, null, walk, get, first, s}
use jetrun.Server.Event.Payload
use jetrun.Server.Event.Payload.{
  Parsed, heads, tags, short_ref, starts_with, or_else, github_ref_kind, gitlab_push, pullrequest,
  change_kind, change_reference, bitbucket_change, is_tag,
}
use jetrun.Server.Event.Parse.{payload_of}

-- A branch or a tag goes by the short form of the reference, and nothing else has one.
abbrev pub NamesRef : EventKind → Option Bytes → Type 0
NamesRef (push branch) reference = (r : Bytes) × (reference ≡ some r) × (short_ref r ≡ branch)
NamesRef (tag name) reference = (r : Bytes) × (reference ≡ some r) × (short_ref r ≡ name)
NamesRef (pull_request number action source_branch target_branch) reference = reference ≡ none
NamesRef ping reference = reference ≡ none
NamesRef (ignored event) reference = reference ≡ none

abbrev Named : Parsed → Type 0
Named p = NamesRef p.kind p.reference

-- The reference that is made of a name has that name.
short_ref-change : (tagged : Bool) (name : Bytes) → short_ref (change_reference tagged name) ≡ name
unfolding short_ref
short_ref-change false name = rw (strip_prefix-append heads name) refl
short_ref-change true name = rw (strip_prefix-append tags name) (unfold strip_prefix in refl)

github_ref-Named : (r : Bytes) → NamesRef (github_ref_kind r) (some r)
github_ref-Named r = elim (Bool-cases (starts_with tags r)) [
  | inl p ↦ rw p (r, refl, refl)
  | inr p ↦ rw p (r, refl, refl)
]

change-Named :
    (tagged : Bool) (name : Bytes)
    → NamesRef (change_kind tagged name) (some (change_reference tagged name))
change-Named true name = (tags ++ name, refl, short_ref-change true name)
change-Named false name = (heads ++ name, refl, short_ref-change false name)

bitbucket_change-Named :
    (repo : Bytes) (actor : Option Bytes) (o : Option Value) → Named (bitbucket_change repo actor o)
bitbucket_change-Named repo actor none = refl
bitbucket_change-Named repo actor (some null) = refl
bitbucket_change-Named repo actor (some (Value.bool b)) = change-Named _ _
bitbucket_change-Named repo actor (some (Value.number n)) = change-Named _ _
bitbucket_change-Named repo actor (some (Value.string text)) = change-Named _ _
bitbucket_change-Named repo actor (some (Value.array values)) = change-Named _ _
bitbucket_change-Named repo actor (some (Value.object members)) = change-Named _ _

github-Named : (event : Bytes) (j : Value) → Ensures Named (Payload.github event j)
unfolding Payload.github
github-Named event j = elim (Bool-cases (bytes_eq event (codes "ping"))) [
  | inl a ↦ rw a refl
  | inr a ↦ elim (Bool-cases (bytes_eq event (codes "push"))) [
    | inl b ↦
        rw (a, b)
          (>>=-Ensures Named (ok_or (s j (codes "ref" ∷ [])) (missing_field (codes "ref"))) _
            (λ r e. github_ref-Named r))
    | inr b ↦ elim (Bool-cases (bytes_eq event (codes "pull_request"))) [
      | inl c ↦ rw (a, b, c) refl
      | inr c ↦ rw (a, b, c) refl
    ]
  ]
]

gitlab-Named : (event : Bytes) (j : Value) → Ensures Named (Payload.gitlab event j)
unfolding Payload.gitlab
gitlab-Named event j = elim (Bool-cases (bytes_eq event (codes "Push Hook"))) [
  | inl a ↦ rw a (
      >>=-Ensures Named (ok_or (s j (codes "ref" ∷ [])) (missing_field (codes "ref"))) _
        (λ r e. (r, refl, refl)))
  | inr a ↦ elim (Bool-cases (bytes_eq event (codes "Tag Push Hook"))) [
    | inl b ↦
        rw (a, b)
          (>>=-Ensures Named (ok_or (s j (codes "ref" ∷ [])) (missing_field (codes "ref"))) _
            (λ r e. (r, refl, refl)))
    | inr b ↦ elim (Bool-cases (bytes_eq event (codes "Merge Request Hook"))) [
      | inl c ↦ rw (a, b, c) refl
      | inr c ↦ rw (a, b, c) refl
    ]
  ]
]

bitbucket-Named : (event : Bytes) (j : Value) → Ensures Named (Payload.bitbucket event j)
unfolding Payload.bitbucket
bitbucket-Named event j = elim (Bool-cases (bytes_eq event (codes "diagnostics:ping"))) [
  | inl a ↦ rw a refl
  | inr a ↦ elim (Bool-cases (bytes_eq event (codes "repo:push"))) [
    | inl b ↦
        rw (a, b)
          (>>=-Ensures Named
            (ok_or (first (walk (codes "push" ∷ codes "changes" ∷ []) j))
              (missing_field (codes "push.changes")))
            _ (λ change e. bitbucket_change-Named _ _ (get (codes "new") change)))
    | inr b ↦ elim (Bool-cases (starts_with pullrequest event)) [
      | inl c ↦ rw (a, b, c) refl
      | inr c ↦ rw (a, b, c) refl
    ]
  ]
]

-- Whatever payload is parsed, of whichever provider: a push or a tag carries a reference, and its branch
-- or name is the short form of that reference (for Bitbucket, which sends a name alone, the reference
-- that is built from it); a pull request, a ping and an ignored event carry none.
pub payload-NamesRef :
    (provider : Provider) (event : Bytes) (j : Value) (p : Parsed)
    → payload_of provider event j ≡ ok p
    → NamesRef p.kind p.reference
unfolding payload_of
payload-NamesRef github event j = Ensures-ok Named _ (github-Named event j)
payload-NamesRef gitlab event j = Ensures-ok Named _ (gitlab-Named event j)
payload-NamesRef bitbucket event j = Ensures-ok Named _ (bitbucket-Named event j)
