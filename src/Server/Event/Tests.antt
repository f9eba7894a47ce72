-- ===== src/Server/Event/Tests.antt =====
-- crates/jet-server/src/webhook/mod.rs: deliveries of the three providers.
use jetrun.Prelude.{
  arith, ◌≡◌, refl, true, Option, none, some, [], ◌∷◌, get_key, Result, Bytes, codes, bytes_eq, ok,
}
use jetrun.Server.Event.Trim.{IsTrimmed, trim_start_matches-IsTrimmed}
use jetrun.Server.Event.Payload.{
  pullrequest, Parsed, short_ref, gitlab_action, bitbucket_action, trim_from, trim_start_matches,
}
use jetrun.Core.Id.{strip_prefix}
use jetrun.Server.Verify.{github, bitbucket, event_header, delivery_header, Verified}
use jetrun.Server.Event.{
  TriggerEvent, push, tag, ignored, is_trigger_action, kind_triggers, should_trigger,
}
use jetrun.Server.Event.Json.{
  Value, null, string, object, array, cons, nil, member, end, find, get, walk, s, u,
}
use jetrun.Server.Event.Payload
use jetrun.Server.Event.Parse.{payload_of, parse}
use jetrun.Server.Event.Trigger.Exact.{IsParsed, parse-IsParsed}
use jetrun.Server.Event.Refs.{NamesRef, payload-NamesRef}

program : Unit {0}
unfolding find get walk s u short_ref gitlab_action bitbucket_action trim_from trim_start_matches
    Payload.github Payload.gitlab Payload.bitbucket payload_of parse is_trigger_action kind_triggers
    should_trigger event_header delivery_header strip_prefix bytes_eq get_key
program = tt

abbrev text : Bytes → Bytes → Value
text key value = object (member key (string value) end)

-- A tag is pushed through the event of a branch.
abbrev tag_document : Value
tag_document = text (codes "ref") (codes "refs/tags/v1")

abbrev tag_parsed : Parsed
tag_parsed = record {
  kind = tag (codes "v1");
  repo = [];
  commit_sha = none;
  reference = some (codes "refs/tags/v1");
  actor = none;
}

github_tag : payload_of github (codes "push") tag_document ≡ ok tag_parsed
unfolding program
github_tag = refl

-- A new branch at Bitbucket, and one that was deleted.
abbrev bitbucket_document : Value → Value
bitbucket_document new = object (
    member (codes "push")
      (object
        (member (codes "changes") (array (cons (object (member (codes "new") new end)) nil)) end))
      end)

branch_created :
    payload_of bitbucket
      (codes "repo:push")
      (bitbucket_document (text (codes "name") (codes "main")))
    ≡ ok (record {
      kind = push (codes "main");
      repo = [];
      commit_sha = none;
      reference = some (codes "refs/heads/main");
      actor = none;
    })
unfolding program
branch_created = refl

branch_deleted :
    payload_of bitbucket (codes "repo:push") (bitbucket_document null)
    ≡ ok (record {
      kind = ignored (codes "repo:push (branch deleted)");
      repo = [];
      commit_sha = none;
      reference = none;
      actor = none;
    })
unfolding program
branch_deleted = refl

-- The words of the providers for an action.
updated : bitbucket_action (codes "pullrequest:updated") ≡ codes "synchronize"
unfolding program
updated = refl

fulfilled : bitbucket_action (codes "pullrequest:fulfilled") ≡ codes "fulfilled"
unfolding program
fulfilled = refl

reopened : gitlab_action (codes "reopen") ≡ codes "reopened"
unfolding program
reopened = refl

payload-NamesRef_example : NamesRef (tag (codes "v1")) (some (codes "refs/tags/v1"))
payload-NamesRef_example = payload-NamesRef github (codes "push") tag_document tag_parsed github_tag

abbrev headers : Bytes → Option Bytes
headers name = get_key name ((codes "x-github-event", codes "push") ∷ [])

abbrev verified : Verified
verified = record { body_authenticated = true }

abbrev event : TriggerEvent
event = record {
  provider = github;
  delivery_id = none;
  kind = tag (codes "v1");
  repo = [];
  commit_sha = none;
  reference = some (codes "refs/tags/v1");
  actor = none;
  body_authenticated = true;
}

abbrev from_slice : Bytes → Result Value Bytes
from_slice body = ok tag_document

read : parse from_slice github headers [] verified ≡ ok event
unfolding program
read = refl

parse-IsParsed_example : IsParsed from_slice github headers [] verified event
parse-IsParsed_example = parse-IsParsed from_slice github headers [] verified event read

trim_start_matches-IsTrimmed_example :
    IsTrimmed pullrequest
      (codes "pullrequest:opened")
      (trim_start_matches pullrequest (codes "pullrequest:opened"))
trim_start_matches-IsTrimmed_example =
    trim_start_matches-IsTrimmed pullrequest (codes "pullrequest:opened") (omega arith)
