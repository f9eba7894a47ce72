-- ===== src/Server/Event.antt =====
-- crates/jet-server/src/webhook/mod.rs: a webhook delivery in the vocabulary of jetrun.
pub mod Json
pub mod Payload
pub mod Parse
pub mod Trigger
pub mod Refs
pub mod Trim
mod Tests
use jetrun.Prelude.{ℕ, ◌*◌, ◌^◌, Bool, true, false, ◌||◌, Option, Bytes, codes, bytes_eq}
use jetrun.Server.Verify.{Provider, VerifyError}

-- `2 << 20`
abbrev pub max_body_bytes : ℕ
max_body_bytes = 2 * 2 ^ 20

-- A pull request has its number, action, source branch and target branch.
pub data EventKind : Type 0 where
  push : Bytes → EventKind
  tag : Bytes → EventKind
  pull_request : ℕ → Bytes → Bytes → Option Bytes → EventKind
  ping : EventKind
  ignored : Bytes → EventKind

pub record TriggerEvent : Type 0 where
  pub provider : Provider
  pub delivery_id : Option Bytes
  pub kind : EventKind
  pub repo : Bytes
  pub commit_sha : Option Bytes
  pub reference : Option Bytes
  pub actor : Option Bytes
  pub body_authenticated : Bool

unfoldable pub is_trigger_action : Bytes → Bool
is_trigger_action action =
    bytes_eq action (codes "opened")
    || (bytes_eq action (codes "reopened")
        || (bytes_eq action (codes "synchronize") || bytes_eq action (codes "updated")))

-- The match of `should_trigger` on the kind.
unfoldable pub kind_triggers : EventKind → Bool
kind_triggers (push branch) = true
kind_triggers (tag name) = true
kind_triggers (pull_request number action source_branch target_branch) = is_trigger_action action
kind_triggers ping = false
kind_triggers (ignored event) = false

unfoldable pub should_trigger : TriggerEvent → Bool
should_trigger event = kind_triggers event.kind

pub data WebhookError : Type 0 where
  verify : VerifyError → WebhookError
  body_too_large : WebhookError
  missing_header : Bytes → WebhookError
  bad_json : Bytes → WebhookError
  missing_field : Bytes → WebhookError
  replay : Bytes → WebhookError
