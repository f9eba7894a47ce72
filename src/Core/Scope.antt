-- ===== src/Core/Scope.antt =====
-- crates/jet-core/src/authz.rs: principals and scopes. `Ulid` stands for the type of the crate
-- `ulid`, and `to_string` for the canonical text of one.
pub mod Cover
use jetrun.Prelude.{
  Bool, true, false, ◌&&◌, ◌||◌, Option, none, some, List, [], ◌∷◌, Bytes, codes, bytes_eq,
}
use jetrun.Core.Id.{
  TypedId, to_canonical, org_id, user_id, project_id, pipeline_id, service_account_id,
}

pub data PrincipalKind : Type 0 where
  user team service_account : PrincipalKind

unfoldable pub principal_kind_str : PrincipalKind → Bytes
principal_kind_str user = codes "user"
principal_kind_str team = codes "team"
principal_kind_str service_account = codes "service_account"

pub data Principal (Ulid : Type 0) : Type 0 where
  user_principal : TypedId org_id Ulid → TypedId user_id Ulid → Principal Ulid
  service_account_principal : TypedId org_id Ulid → TypedId service_account_id Ulid → Principal Ulid
  system_principal : TypedId org_id Ulid → Principal Ulid

pub data ScopeKind : Type 0 where
  org project pipeline : ScopeKind

-- `ScopeKind::as_str`
unfoldable pub scope_kind_str : ScopeKind → Bytes
scope_kind_str org = codes "org"
scope_kind_str project = codes "project"
scope_kind_str pipeline = codes "pipeline"

-- The derived `PartialEq`.
unfoldable pub scope_kind_eq : ScopeKind → ScopeKind → Bool
scope_kind_eq org org = true
scope_kind_eq project project = true
scope_kind_eq pipeline pipeline = true
scope_kind_eq _ _ = false

-- Where a permission is exercised, with its ancestors.
pub data Scope (Ulid : Type 0) : Type 0 where
  org_scope : TypedId org_id Ulid → Scope Ulid
  project_scope : TypedId org_id Ulid → TypedId project_id Ulid → Scope Ulid
  pipeline_scope :
      TypedId org_id Ulid → TypedId project_id Ulid → TypedId pipeline_id Ulid → Scope Ulid

module _ {Ulid : Type 0} where
  -- `Principal::org`
  unfoldable pub principal_org : Principal Ulid → TypedId org_id Ulid
  principal_org (user_principal o u) = o
  principal_org (service_account_principal o sa) = o
  principal_org (system_principal o) = o

  -- `Principal::kind`
  unfoldable pub principal_kind : Principal Ulid → Option PrincipalKind
  principal_kind (user_principal o u) = some user
  principal_kind (service_account_principal o sa) = some service_account
  principal_kind (system_principal o) = none

  unfoldable pub is_system : Principal Ulid → Bool
  is_system (system_principal o) = true
  is_system _ = false

  -- `Scope::org`
  unfoldable pub scope_org : Scope Ulid → TypedId org_id Ulid
  scope_org (org_scope o) = o
  scope_org (project_scope o p) = o
  scope_org (pipeline_scope o p l) = o

  -- `Scope::kind`
  unfoldable pub scope_kind : Scope Ulid → ScopeKind
  scope_kind (org_scope o) = org
  scope_kind (project_scope o p) = project
  scope_kind (pipeline_scope o p l) = pipeline

-- The loop of `iter().any` in `covered_by`.
unfoldable pub any_level : ScopeKind → Bytes → List (ScopeKind × Bytes) → Bool
any_level kind id [] = false
any_level kind id ((k, i) ∷ levels) =
    (scope_kind_eq k kind && bytes_eq i id) || any_level kind id levels

module _ {Ulid : Type 0} (to_string : Ulid → Bytes) where
  -- `Principal::id_string`
  unfoldable pub id_string : Principal Ulid → Option Bytes
  id_string (user_principal o u) = some (to_canonical to_string u)
  id_string (service_account_principal o sa) = some (to_canonical to_string sa)
  id_string (system_principal o) = none

  -- The scope and every scope above it, nearest first.
  unfoldable pub lineage : Scope Ulid → List (ScopeKind × Bytes)
  lineage (org_scope o) = (org, to_canonical to_string o) ∷ []
  lineage (project_scope o p) =
      (project, to_canonical to_string p) ∷ (org, to_canonical to_string o) ∷ []
  lineage (pipeline_scope o p l) =
      (pipeline, to_canonical to_string l)
      ∷ (project, to_canonical to_string p)
      ∷ (org, to_canonical to_string o)
      ∷ []

  unfoldable pub covered_by : Scope Ulid → ScopeKind → Bytes → Bool
  unfolding lineage any_level
  covered_by scope kind id = any_level kind id (lineage scope)
