-- ===== src/Server/State/Tests.antt =====
-- crates/jet-server/src/state.rs: secrets, tokens, and runs for repositories.
use jetrun.Prelude.{
  ◌≡◌, refl, ◌≢◌, true, none, some, [], get_key, insert_key, split_once, splitn, Bytes, codes,
  bytes_eq, ok, err,
}
use jetrun.Server.Verify.{Provider, github, gitlab, provider_str}
use jetrun.Server.Event.{TriggerEvent, push}
use jetrun.Server.State.{
  WebhookSecrets, ServerState, new, set_secret, get_secret, map_repo, webhook_secret, unknown_repo,
  enqueue, malformed, unknown, authenticate_token,
}
use jetrun.Server.State.Secrets.{get_secret-set_secret}
use jetrun.Server.State.Tokens.{IsRefused, IsToken, authenticate_token-IsRefused}

program : Unit {0}
unfolding set_secret get_secret map_repo webhook_secret enqueue authenticate_token provider_str
    splitn split_once get_key insert_key bytes_eq
program = tt

abbrev secrets : WebhookSecrets
secrets = set_secret github (codes "gh") []

abbrev state : ServerState
state = map_repo (codes "acme/web") (codes "web") (codes "ci") (new secrets)

abbrev pushed_to : Bytes → TriggerEvent
pushed_to repo = record {
  provider = github;
  delivery_id = none;
  kind = push (codes "main");
  repo = repo;
  commit_sha = none;
  reference = none;
  actor = none;
  body_authenticated = true;
}

-- A provider with no secret does not inherit another's.
unset : webhook_secret state gitlab ≡ none
unfolding program
unset = refl

queued : enqueue state (codes "run") (pushed_to (codes "acme/web")) ≡ ok (codes "run")
unfolding program
queued = refl

unmapped :
    enqueue state (codes "run") (pushed_to (codes "else")) ≡ err (unknown_repo (codes "else"))
unfolding program
unmapped = refl

well_formed : authenticate_token (codes "jetr_abc_s_e_c") ≡ err unknown
unfolding program
well_formed = refl

no_prefix : authenticate_token (codes "jetr__secret") ≡ err malformed
unfolding program
no_prefix = refl

get_secret-set_secret_example :
    (get_secret (set_secret gitlab (codes "gl") secrets) gitlab ≡ some (codes "gl"))
    × ((q : Provider)
        → q ≢ gitlab
        → get_secret (set_secret gitlab (codes "gl") secrets) q ≡ get_secret secrets q)
get_secret-set_secret_example = get_secret-set_secret gitlab (codes "gl") secrets

authenticate_token-IsRefused_example :
    IsRefused (authenticate_token (codes "jetr_abc_s_e_c")) (IsToken (codes "jetr_abc_s_e_c"))
authenticate_token-IsRefused_example = authenticate_token-IsRefused (codes "jetr_abc_s_e_c")
