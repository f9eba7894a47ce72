-- ===== src/Store/Bootstrap.antt =====
-- crates/jet-store/src/bootstrap.rs: the built-in roles, created and reconciled at every startup. A
-- table is the list of its rows, with the keys and the references of crates/jet-store/migrations as
-- tests before an insertion. The transaction is the returned tables: after an error there are none.
pub mod Grants
pub mod Rows
pub mod Exact
pub mod Succeeds
mod Tests
use jetrun.Prelude.{
  ℕ, Bool, true, false, not, ◌&&◌, ◌||◌, Option, none, some, List, [], ◌∷◌, map, if◌then◌else◌, any,
  keep, Result, ◌>>=◌, ◌>>◌, refuse_if, ok_or, Bytes, bytes_eq, ok, err,
}
use jetrun.Core.Permission.{Permission, all, as_str, from_str}
use jetrun.Core.Role.{SystemRole, all_roles, key, display_name, description, permissions}
use jetrun.Authz.Tables.{RolePermission}

pub record RoleRow : Type 0 where
  pub id : Bytes
  pub org_id : Option Bytes
  pub key : Bytes
  pub name : Bytes
  pub description : Bytes
  pub is_system : Bool
  pub created_at : ℕ

pub record Catalog : Type 0 where
  pub permissions : List Bytes
  pub roles : List RoleRow
  pub role_permissions : List RolePermission

pub data StoreError : Type 0 where
  row_not_found : StoreError
  unique_violation : StoreError
  foreign_key_violation : StoreError
  not_found : Bytes → StoreError
  invalid_catalog : List Bytes → StoreError

abbrev pub is_none : Option Bytes → Bool
is_none none = true
is_none (some org) = false

-- `WHERE org_id IS NULL AND key = ?`
abbrev pub is_built_in : Bytes → RoleRow → Bool
is_built_in k row = is_none row.org_id && bytes_eq row.key k

unfoldable pub select_id : Bytes → List RoleRow → Option Bytes
select_id k [] = none
select_id k (row ∷ rows) = if is_built_in k row then some row.id else select_id k rows

unfoldable pub system_role_id : Catalog → SystemRole → Result Bytes StoreError
system_role_id db role = ok_or (select_id (key role) db.roles) (not_found (key role))

abbrev pub is_empty : List Bytes → Bool
is_empty [] = true
is_empty (k ∷ ks) = false

abbrev pub unknown : Result Permission Bytes → Bool
unknown (ok p) = false
unknown (err k) = true

abbrev pub is_unknown : Bytes → Bool
is_unknown k = unknown (from_str k)

-- The keys that the catalog has and the code has not are the answer; they are only warned of.
unfoldable pub verify_permission_catalog : Catalog → Result (List Bytes) StoreError
verify_permission_catalog db =
    let missing = keep (λ k. not (any (bytes_eq k) db.permissions)) (map as_str all) in
    (do
      refuse_if (not (is_empty missing)) (invalid_catalog missing)
      ok (keep is_unknown db.permissions))

-- A row that the primary key or `roles_system_key` keeps out.
abbrev pub conflicts : Bytes → Bytes → RoleRow → Bool
conflicts id k row = bytes_eq id row.id || is_built_in k row

abbrev pub new_row : Bytes → SystemRole → ℕ → RoleRow
new_row id role now = record {
  id = id;
  org_id = none;
  key = key role;
  name = display_name role;
  description = description role;
  is_system = true;
  created_at = now;
}

-- `INSERT OR IGNORE`
unfoldable pub insert_role : Bytes → ℕ → SystemRole → List RoleRow → List RoleRow
insert_role id now role rows =
    if any (conflicts id (key role)) rows then rows else new_row id role now ∷ rows

abbrev pub of_role : Bytes → RolePermission → Bool
of_role id row = bytes_eq row.role_id id

abbrev pub same_grant : Bytes → Bytes → RolePermission → Bool
same_grant id k row = bytes_eq row.role_id id && bytes_eq row.permission_key k

-- `DELETE FROM role_permissions`
unfoldable pub clear : Bytes → List RolePermission → List RolePermission
clear id rows = keep (λ row. not (of_role id row)) rows

-- The permissions of a role, inserted one by one.
unfoldable pub grant :
    List Bytes
    → Bytes
    → List Permission
    → List RolePermission
    → Result (List RolePermission) StoreError
grant catalog id [] rows = ok rows
grant catalog id (p ∷ ps) rows = do
  refuse_if (any (same_grant id (as_str p)) rows) unique_violation
  refuse_if (not (any (bytes_eq (as_str p)) catalog)) foreign_key_violation
  grant catalog id ps (record { role_id = id; permission_key = as_str p } ∷ rows)

-- One turn of the loop, with a fresh identifier.
unfoldable pub reconcile : Bytes → ℕ → SystemRole → Catalog → Result Catalog StoreError
reconcile fresh now role db =
    let rows = insert_role fresh now role db.roles in
    (do
      id ← ok_or (select_id (key role) rows) row_not_found
      grants ← grant db.permissions id (permissions role) (clear id db.role_permissions)
      ok (record db { roles = rows; role_permissions = grants }))

unfoldable pub reconcile_all :
    (SystemRole → Bytes) → ℕ → List SystemRole → Catalog → Result Catalog StoreError
reconcile_all fresh now [] db = ok db
reconcile_all fresh now (role ∷ roles) db = do
  next ← reconcile (fresh role) now role db
  reconcile_all fresh now roles next

unfoldable pub bootstrap : (SystemRole → Bytes) → ℕ → Catalog → Result Catalog StoreError
bootstrap fresh now db = do
  warned ← verify_permission_catalog db
  reconcile_all fresh now all_roles db
