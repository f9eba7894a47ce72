-- ===== src/Store/Bootstrap/Tests.antt =====
-- crates/jet-store/src/bootstrap.rs: startups on a new database, and on one that was tampered with.
use jetrun.Prelude.{
  true, false, none, some, [], ◌∷◌, map, any, keep, not, Bytes, codes, bytes_eq, bytes_eq_iff,
  Result, ok, err, ◌≡◌, ◌≢◌, refl, sym, inl, inr,
}
use mathlib.Core.Bool.{false≢true}
use jetrun.Core.Permission.{
  all, as_str, from_str, find, org_read, org_manage, member_invite, member_remove, team_manage,
  role_manage, billing_manage, project_create, project_read, project_manage, pipeline_read,
  pipeline_write, pipeline_run, run_read, run_cancel, log_read, secret_write, secret_read,
  cache_read, cache_purge, worker_read, worker_admin, token_manage, audit_read,
}
use jetrun.Core.Role.{
  SystemRole, owner, viewer, key, display_name, description, permissions, for_admin,
}
use jetrun.Store.Bootstrap.{
  RoleRow, Catalog, StoreError, invalid_catalog, select_id, insert_role, clear, grant, reconcile,
  reconcile_all, bootstrap, verify_permission_catalog, system_role_id,
}
use jetrun.Store.Bootstrap.Grants.{is_granted}
use jetrun.Store.Bootstrap.Rows.{Unique, key-injective}
use jetrun.Store.Bootstrap.Succeeds.{IsComplete, IsFresh, IsBooted, bootstrap-IsBooted}

program : Unit {0}
unfolding any keep bytes_eq as_str from_str find key display_name description permissions for_admin
    select_id insert_role clear grant reconcile reconcile_all bootstrap verify_permission_catalog
    system_role_id
program = tt

abbrev fresh : SystemRole → Bytes
fresh role = 7 ∷ key role

abbrev role_row : Bytes → Bytes → RoleRow
role_row id k = record {
  id = id;
  org_id = none;
  key = k;
  name = codes "Watcher";
  description = [];
  is_system = true;
  created_at = 0;
}

abbrev custom : RoleRow
custom = record (role_row (codes "c") (codes "deployer")) {
  org_id = some (codes "acme");
  is_system = false;
}

-- The viewer was renamed and may read secrets, by hand; an organization has a role of its own.
abbrev tampered : Catalog
tampered = record {
  permissions = map as_str all;
  roles = role_row (codes "v") (codes "viewer") ∷ custom ∷ [];
  role_permissions =
      record { role_id = codes "v"; permission_key = codes "secret.read" }
      ∷ record { role_id = codes "c"; permission_key = codes "pipeline.run" }
      ∷ [];
}

abbrev booted : Result Catalog StoreError → Catalog
booted (ok db) = db
booted (err e) = tampered

abbrev after : Catalog
after = booted (bootstrap fresh 5 tampered)

restores :
    (is_granted tampered.role_permissions (codes "v") (codes "secret.read") ≡ true)
    × (is_granted after.role_permissions (codes "v") (codes "secret.read") ≡ false)
    × (is_granted after.role_permissions (codes "v") (codes "log.read") ≡ true)
    × (is_granted after.role_permissions (codes "c") (codes "pipeline.run") ≡ true)
    × (system_role_id after viewer ≡ ok (codes "v"))
    × (system_role_id after owner ≡ ok (fresh owner))
unfolding program
restores = (refl, refl, refl, refl, refl, refl)

-- A second startup changes nothing.
again : bootstrap (λ role. 8 ∷ key role) 9 after ≡ ok after
unfolding program
again = refl

incomplete :
    bootstrap fresh 5 (record tampered { permissions = codes "org.read" ∷ [] })
    ≡ err (invalid_catalog (keep (λ k. not (bytes_eq k (codes "org.read"))) (map as_str all)))
unfolding program
incomplete = refl

complete : IsComplete tampered.permissions
unfolding any bytes_eq as_str
complete org_read = refl
complete org_manage = refl
complete member_invite = refl
complete member_remove = refl
complete team_manage = refl
complete role_manage = refl
complete billing_manage = refl
complete project_create = refl
complete project_read = refl
complete project_manage = refl
complete pipeline_read = refl
complete pipeline_write = refl
complete pipeline_run = refl
complete run_read = refl
complete run_cancel = refl
complete log_read = refl
complete secret_write = refl
complete secret_read = refl
complete cache_read = refl
complete cache_purge = refl
complete worker_read = refl
complete worker_admin = refl
complete token_manage = refl
complete audit_read = refl

v≢c : codes "v" ≢ codes "c"
unfolding bytes_eq
v≢c h = false≢true ((bytes_eq_iff (codes "v") (codes "c")).1 h)

unique : Unique tampered.roles
unique a b ma mb q = elim ma [
  | inl x ↦ elim mb [
    | inl y ↦ cc
    | inr m ↦ elim m [ inl y ↦ absurd (v≢c (rw (x, y) at q)) | inr n ↦ absurd n ]
  ]
  | inr l ↦ elim l [
    | inl x ↦ elim mb [
      | inl y ↦ absurd (v≢c (sym (rw (x, y) at q)))
      | inr m ↦ elim m [ inl y ↦ cc | inr n ↦ absurd n ]
    ]
    | inr n ↦ absurd n
  ]
]

is_fresh : IsFresh fresh tampered.roles
is_fresh role row m q = elim m [
  | inl x ↦ absurd (v≢ role (rw x at q))
  | inr l ↦ elim l [ inl x ↦ absurd (c≢ role (rw x at q)) | inr n ↦ absurd n ]
]
  where
    v≢ : (role : SystemRole) → codes "v" ≢ fresh role
    v≢ role h = cc

    c≢ : (role : SystemRole) → codes "c" ≢ fresh role
    c≢ role h = cc

fresh-injective : (r r' : SystemRole) → fresh r ≡ fresh r' → r ≡ r'
fresh-injective r r' h = key-injective r r' cc

bootstrap-IsBooted_example :
    (db' : Catalog) × (bootstrap fresh 5 tampered ≡ ok db') × IsBooted tampered db'
bootstrap-IsBooted_example =
    bootstrap-IsBooted fresh 5 tampered unique complete is_fresh fresh-injective
