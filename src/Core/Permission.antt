-- ===== src/Core/Permission.antt =====
-- crates/jet-core/src/authz.rs: permissions, their names and their parser.
pub mod Names
mod Tests
use jetrun.Prelude.{
  ℕ, Bool, false, ◌||◌, Option, none, some, List, [], ◌∷◌, ◌==◌, if◌then◌else◌, Result, ok_or,
  Bytes, codes, bytes_eq,
}

pub data Permission : Type 0 where
  org_read : Permission
  org_manage : Permission
  member_invite : Permission
  member_remove : Permission
  team_manage : Permission
  role_manage : Permission
  billing_manage : Permission
  project_create : Permission
  project_read : Permission
  project_manage : Permission
  pipeline_read : Permission
  pipeline_write : Permission
  pipeline_run : Permission
  run_read : Permission
  run_cancel : Permission
  log_read : Permission
  secret_write : Permission
  secret_read : Permission
  cache_read : Permission
  cache_purge : Permission
  worker_read : Permission
  worker_admin : Permission
  token_manage : Permission
  audit_read : Permission

-- `Permission::ALL`
abbrev pub all : List Permission
all =
    org_read ∷ org_manage ∷ member_invite ∷ member_remove ∷ team_manage ∷ role_manage
    ∷ billing_manage ∷ project_create ∷ project_read ∷ project_manage ∷ pipeline_read
    ∷ pipeline_write ∷ pipeline_run ∷ run_read ∷ run_cancel ∷ log_read ∷ secret_write ∷ secret_read
    ∷ cache_read ∷ cache_purge ∷ worker_read ∷ worker_admin ∷ token_manage ∷ audit_read ∷ []

unfoldable pub as_str : Permission → Bytes
as_str org_read = codes "org.read"
as_str org_manage = codes "org.manage"
as_str member_invite = codes "member.invite"
as_str member_remove = codes "member.remove"
as_str team_manage = codes "team.manage"
as_str role_manage = codes "role.manage"
as_str billing_manage = codes "billing.manage"
as_str project_create = codes "project.create"
as_str project_read = codes "project.read"
as_str project_manage = codes "project.manage"
as_str pipeline_read = codes "pipeline.read"
as_str pipeline_write = codes "pipeline.write"
as_str pipeline_run = codes "pipeline.run"
as_str run_read = codes "run.read"
as_str run_cancel = codes "run.cancel"
as_str log_read = codes "log.read"
as_str secret_write = codes "secret.write"
as_str secret_read = codes "secret.read"
as_str cache_read = codes "cache.read"
as_str cache_purge = codes "cache.purge"
as_str worker_read = codes "worker.read"
as_str worker_admin = codes "worker.admin"
as_str token_manage = codes "token.manage"
as_str audit_read = codes "audit.read"

-- The derived `PartialEq` of an enum without fields: it compares the discriminants.
unfoldable pub discriminant : Permission → ℕ
discriminant org_read = 0
discriminant org_manage = 1
discriminant member_invite = 2
discriminant member_remove = 3
discriminant team_manage = 4
discriminant role_manage = 5
discriminant billing_manage = 6
discriminant project_create = 7
discriminant project_read = 8
discriminant project_manage = 9
discriminant pipeline_read = 10
discriminant pipeline_write = 11
discriminant pipeline_run = 12
discriminant run_read = 13
discriminant run_cancel = 14
discriminant log_read = 15
discriminant secret_write = 16
discriminant secret_read = 17
discriminant cache_read = 18
discriminant cache_purge = 19
discriminant worker_read = 20
discriminant worker_admin = 21
discriminant token_manage = 22
discriminant audit_read = 23

unfoldable pub perm_eq : Permission → Permission → Bool
perm_eq p q = discriminant p == discriminant q

-- `iter().find(|p| p.as_str() == s)`
unfoldable pub find : Bytes → List Permission → Option Permission
find s [] = none
find s (p ∷ ps) = if bytes_eq (as_str p) s then some p else find s ps

-- `Permission::from_str`; the error is `UnknownPermission` with the text.
unfoldable pub from_str : Bytes → Result Permission Bytes
from_str s = ok_or (find s all) s

-- `contains`, of a list or a set of permissions.
unfoldable pub holds : List Permission → Permission → Bool
holds [] p = false
holds (q ∷ qs) p = perm_eq q p || holds qs p
