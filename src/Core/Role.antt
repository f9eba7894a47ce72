-- ===== src/Core/Role.antt =====
-- crates/jet-core/src/authz.rs: the built-in roles and what they grant.
pub mod Ladder
use jetrun.Prelude.{List, [], ◌∷◌, Bytes, codes}
use jetrun.Core.Permission.{
  Permission, all, holds, org_read, org_manage, member_invite, member_remove, team_manage,
  role_manage, billing_manage, project_create, project_read, project_manage, pipeline_read,
  pipeline_write, pipeline_run, run_read, run_cancel, log_read, secret_write, secret_read,
  cache_read, cache_purge, worker_read, worker_admin, token_manage, audit_read,
}

pub data SystemRole : Type 0 where
  owner : SystemRole
  admin : SystemRole
  maintainer : SystemRole
  developer : SystemRole
  viewer : SystemRole
  billing : SystemRole

-- `SystemRole::ALL`
abbrev pub all_roles : List SystemRole
all_roles = owner ∷ admin ∷ maintainer ∷ developer ∷ viewer ∷ billing ∷ []

unfoldable pub key : SystemRole → Bytes
key owner = codes "owner"
key admin = codes "admin"
key maintainer = codes "maintainer"
key developer = codes "developer"
key viewer = codes "viewer"
key billing = codes "billing"

unfoldable pub display_name : SystemRole → Bytes
display_name owner = codes "Owner"
display_name admin = codes "Admin"
display_name maintainer = codes "Maintainer"
display_name developer = codes "Developer"
display_name viewer = codes "Viewer"
display_name billing = codes "Billing"

unfoldable pub description : SystemRole → Bytes
description owner = codes "Full control, including billing and secret values"
description admin = codes "Full control except billing and revealing secret values"
description maintainer = codes "Manage projects, pipelines, secrets and caches"
description developer = codes "Run pipelines and read results"
description viewer = codes "Read-only access"
description billing = codes "Manage billing only"

-- The filter of the administrator's permissions: all but two.
unfoldable pub for_admin : List Permission → List Permission
for_admin [] = []
for_admin (billing_manage ∷ ps) = for_admin ps
for_admin (secret_read ∷ ps) = for_admin ps
for_admin (p ∷ ps) = p ∷ for_admin ps

-- `SystemRole::permissions`
unfoldable pub permissions : SystemRole → List Permission
unfolding for_admin
permissions owner = all
permissions admin = for_admin all
permissions maintainer =
    org_read ∷ project_create ∷ project_read ∷ project_manage ∷ pipeline_read ∷ pipeline_write
    ∷ pipeline_run ∷ run_read ∷ run_cancel ∷ log_read ∷ secret_write ∷ cache_read ∷ cache_purge
    ∷ worker_read ∷ []
permissions developer =
    org_read ∷ project_read ∷ pipeline_read ∷ pipeline_run ∷ run_read ∷ run_cancel ∷ log_read
    ∷ cache_read ∷ []
permissions viewer = org_read ∷ project_read ∷ pipeline_read ∷ run_read ∷ log_read ∷ []
permissions billing = org_read ∷ billing_manage ∷ []
