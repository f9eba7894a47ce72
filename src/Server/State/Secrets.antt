-- ===== src/Server/State/Secrets.antt =====
-- crates/jet-server/src/state.rs: a secret is of one provider.
use jetrun.Prelude.{
  ◌≡◌, refl, ◌≢◌, some, if◌then◌else◌, get_key, get_key-insert_key, Bytes, bytes_eq, bytes_eq_refl,
}
use jetrun.Server.Verify.{Provider, github, gitlab, bitbucket, provider_str}
use jetrun.Server.State.{WebhookSecrets, set_secret, get_secret}

-- Setting the secret of one provider is what its next reading gives, and no other provider's changes:
-- one can be rotated without the others, and a leaked one forges no delivery of another provider.
pub get_secret-set_secret :
    (p : Provider) (secret : Bytes) (secrets : WebhookSecrets)
    → (get_secret (set_secret p secret secrets) p ≡ some secret)
      × ((q : Provider) → q ≢ p → get_secret (set_secret p secret secrets) q ≡ get_secret secrets q)
unfolding get_secret set_secret provider_str bytes_eq
get_secret-set_secret p secret secrets = (
  rw
      (
        get_key-insert_key (provider_str p) (provider_str p) secret secrets,
        bytes_eq_refl (provider_str p),
      )
      refl,
  λ q n. rw (get_key-insert_key (provider_str p) (provider_str q) secret secrets) (other p q n),
)
  where
    other :
        (p q : Provider)
        → q ≢ p
        → (if bytes_eq (provider_str p) (provider_str q)
            then some secret
            else get_key (provider_str q) secrets)
          ≡ get_key (provider_str q) secrets
    other github github n = absurd (n refl)
    other github gitlab n = refl
    other github bitbucket n = refl
    other gitlab github n = refl
    other gitlab gitlab n = absurd (n refl)
    other gitlab bitbucket n = refl
    other bitbucket github n = refl
    other bitbucket gitlab n = refl
    other bitbucket bitbucket n = absurd (n refl)
