-- ===== src/Authz/Tables.antt =====
-- crates/jet-authz/src/lib.rs: the tables that the authorizer reads, and its three SQL queries as
-- functions of their rows. All columns are texts, as in crates/jet-store/migrations.
pub mod Queries
use jetrun.Prelude.{
  ℕ, ◌+◌, Bool, true, false, ◌&&◌, ◌||◌, Option, none, some, List, [], ◌∷◌, map, ltb, if◌then◌else◌,
  any, keep, flat_map, Bytes, codes, bytes_eq, ok, err,
}
use jetrun.Core.Permission.{Permission, from_str}
use jetrun.Core.Scope.{
  Principal, user_principal, service_account_principal, system_principal, Scope, ScopeKind,
  scope_kind_str, principal_org, id_string, lineage,
}
use jetrun.Core.Id.{to_canonical}

pub record Membership : Type 0 where
  pub org_id : Bytes
  pub user_id : Bytes
  pub status : Bytes

pub record UserRow : Type 0 where
  pub id : Bytes
  pub status : Bytes

pub record ServiceAccountRow : Type 0 where
  pub id : Bytes
  pub org_id : Bytes
  pub disabled_at : Option ℕ

pub record Assignment : Type 0 where
  pub org_id : Bytes
  pub principal_kind : Bytes
  pub principal_id : Bytes
  pub role_id : Bytes
  pub scope_kind : Bytes
  pub scope_id : Bytes

pub record RolePermission : Type 0 where
  pub role_id : Bytes
  pub permission_key : Bytes

pub record TeamMember : Type 0 where
  pub team_id : Bytes
  pub user_id : Bytes

pub record TeamRow : Type 0 where
  pub id : Bytes
  pub org_id : Bytes

pub record Database : Type 0 where
  pub memberships : List Membership
  pub users : List UserRow
  pub service_accounts : List ServiceAccountRow
  pub role_assignments : List Assignment
  pub role_permissions : List RolePermission
  pub team_members : List TeamMember
  pub teams : List TeamRow

-- `count(*)` over the rows that a `WHERE` keeps.
unfoldable pub count_where : {A : Type 0} → (A → Bool) → List A → ℕ
count_where f [] = 0
count_where f (x ∷ xs) = let rest = count_where f xs in if f x then 1 + rest else rest

-- The rows of a join: each row of the first table with each row of the second.
unfoldable pub join : {A B : Type 0} → List A → List B → List (A × B)
join xs ys = flat_map (λ x. map (λ y. (x, y)) ys) xs

abbrev pub member_is_active : Bytes → Bytes → Membership × UserRow → Bool
member_is_active org user (m, u) =
    bytes_eq u.id m.user_id
    && (bytes_eq m.org_id org
        && (bytes_eq m.user_id user
            && (bytes_eq m.status (codes "active") && bytes_eq u.status (codes "active"))))

abbrev pub is_null : Option ℕ → Bool
is_null none = true
is_null (some t) = false

abbrev pub account_is_active : Bytes → Bytes → ServiceAccountRow → Bool
account_is_active org id a = bytes_eq a.org_id org && (bytes_eq a.id id && is_null a.disabled_at)

-- The subquery for the teams of a user: team members joined with the teams of the organization.
abbrev pub team_of : Bytes → Bytes → TeamMember × TeamRow → Bool
team_of user org (tm, t) =
    bytes_eq t.id tm.team_id && (bytes_eq tm.user_id user && bytes_eq t.org_id org)

unfoldable pub teams_of : Database → Bytes → Bytes → List Bytes
unfolding join
teams_of db user org =
    map (λ row. row.0.team_id) (keep (team_of user org) (join db.team_members db.teams))

abbrev pub principal_matches : Database → Bytes → Bytes → Assignment → Bool
principal_matches db org principal_id ra =
    ((bytes_eq ra.principal_kind (codes "user")
        || bytes_eq ra.principal_kind (codes "service_account"))
      && bytes_eq ra.principal_id principal_id)
    || (bytes_eq ra.principal_kind (codes "team")
        && any (bytes_eq ra.principal_id) (teams_of db principal_id org))

-- `(ra.scope_kind = ? AND ra.scope_id = ?)`, for one level of the lineage.
abbrev pub level_matches : Assignment → ScopeKind × Bytes → Bool
level_matches ra (kind, id) =
    bytes_eq ra.scope_kind (scope_kind_str kind) && bytes_eq ra.scope_id id

-- The `WHERE` and `ON` of the permission query.
abbrev pub row_matches :
    Database → Bytes → Bytes → List (ScopeKind × Bytes) → Assignment × RolePermission → Bool
row_matches db org principal_id levels (ra, rp) =
    bytes_eq rp.role_id ra.role_id
    && (bytes_eq ra.org_id org
        && (principal_matches db org principal_id ra && any (level_matches ra) levels))

-- The keys that the permission query selects. `DISTINCT` drops repetitions only, and the caller
-- collects the rows into a set.
unfoldable pub permission_keys : Database → Bytes → Bytes → List (ScopeKind × Bytes) → List Bytes
permission_keys db org principal_id levels =
    map (λ row. row.1.permission_key)
      (keep (row_matches db org principal_id levels) (join db.role_assignments db.role_permissions))

-- `filter_map(|k| k.parse().ok())`: an unknown key is ignored.
unfoldable pub parse_keys : List Bytes → List Permission
parse_keys [] = []
parse_keys (k ∷ ks) =
    let rest = parse_keys ks in elim (from_str k) [ ok p ↦ p ∷ rest | err e ↦ rest ]

module _ {Ulid : Type 0} (to_string : Ulid → Bytes) where
  -- `is_active_principal`, on the rows that its query sees.
  unfoldable pub is_active_principal : Database → Principal Ulid → Bool
  is_active_principal db (system_principal o) = true
  is_active_principal db (user_principal o u) = ltb 0 (
      count_where (member_is_active (to_canonical to_string o) (to_canonical to_string u))
        (join db.memberships db.users))
  is_active_principal db (service_account_principal o sa) = ltb 0 (
      count_where (account_is_active (to_canonical to_string o) (to_canonical to_string sa))
        db.service_accounts)

  abbrev pub permissions_of :
      Database → Bytes → List (ScopeKind × Bytes) → Option Bytes → List Permission
  permissions_of db org levels none = []
  permissions_of db org levels (some id) = parse_keys (permission_keys db org id levels)

  -- `query_permissions`, on the rows that its query sees.
  unfoldable pub query_permissions : Database → Principal Ulid → Scope Ulid → List Permission
  query_permissions db principal scope =
      permissions_of db (to_canonical to_string (principal_org principal)) (lineage to_string scope)
        (id_string to_string principal)
