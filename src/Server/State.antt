-- ===== src/Server/State.antt =====
-- crates/jet-server/src/state.rs: the state that the handlers share, without the database, which none
-- of these operations reads. A hash map is the list of its entries; the identifier of a new run is given.
pub mod Secrets
pub mod Tokens
mod Tests
use jetrun.Prelude.{
  not, ◌&&◌, Option, List, [], ◌∷◌, if◌then◌else◌, get_key, insert_key, splitn, Result, ok_or,
  ◌>>=◌, ◌>>◌, Bytes, codes, bytes_eq, ok, err, ℕ,
}
use jetrun.Server.Verify.{Provider, provider_str, is_empty}
use jetrun.Server.Dedupe.{DeliveryGuard}
use jetrun.Server.Dedupe
use jetrun.Server.Event.{TriggerEvent}

-- By the provider's name.
abbrev pub WebhookSecrets : Type 0
WebhookSecrets = List (Bytes × Bytes)

unfoldable pub set_secret : Provider → Bytes → WebhookSecrets → WebhookSecrets
set_secret provider secret secrets = insert_key (provider_str provider) secret secrets

unfoldable pub get_secret : WebhookSecrets → Provider → Option Bytes
get_secret secrets provider = get_key (provider_str provider) secrets

-- `repo_map` leads from a repository to its project and its pipeline.
pub record ServerState : Type 0 where
  pub deliveries : DeliveryGuard
  pub secrets : WebhookSecrets
  pub repo_map : List (Bytes × (Bytes × Bytes))

abbrev pub new : WebhookSecrets → ServerState
new secrets = record { deliveries = Dedupe.default; secrets = secrets; repo_map = [] }

unfoldable pub map_repo : Bytes → Bytes → Bytes → ServerState → ServerState
map_repo repo project pipeline state = record state {
  repo_map = insert_key repo (project, pipeline) state.repo_map;
}

unfoldable pub webhook_secret : ServerState → Provider → Option Bytes
webhook_secret state provider = get_secret state.secrets provider

-- An error of the store, which carries its text, is not one that `enqueue` makes.
pub data EnqueueError : Type 0 where
  unknown_repo : Bytes → EnqueueError
  store : Bytes → EnqueueError

-- The run's identifier, when the repository is configured.
unfoldable pub enqueue : ServerState → Bytes → TriggerEvent → Result Bytes EnqueueError
enqueue state run_id event = do
  (project, pipeline) ← ok_or (get_key event.repo state.repo_map) (unknown_repo event.repo)
  ok run_id

pub data AuthError : Type 0 where
  malformed unknown : AuthError

-- A token has the form `jetr_<prefix>_<secret>`.
abbrev pub token_parts : List Bytes → Result (Unit {0}) AuthError
token_parts (scheme ∷ prefix ∷ secret ∷ []) =
    if bytes_eq scheme (codes "jetr") && (not (is_empty prefix) && not (is_empty secret))
    then err unknown
    else err malformed
token_parts _ = err malformed

-- The state plays no part in it.
unfoldable pub authenticate_token : Bytes → Result (Unit {0}) AuthError
authenticate_token token = token_parts (splitn 3 b'_' token)
