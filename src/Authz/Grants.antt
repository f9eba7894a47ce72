-- ===== src/Authz/Grants.antt =====
-- crates/jet-authz/src/lib.rs: when an action is allowed, said of the rows and the hierarchy of
-- scopes alone, and that a decision the cache does not answer is exactly that.
use jetrun.Prelude.{
  ◌⊎◌, true, sym, ap, ◌∙◌, inl, inr, Reflects-trans, In, ◌≡◌, refl, ◌↔◌, Reflects, Bytes,
}
use jetrun.Core.Scope.{
  is_system, scope_org, principal_org, Principal, user_principal, service_account_principal,
  system_principal, Scope, org_scope, project_scope, pipeline_scope, ScopeKind, scope_kind,
  scope_kind_str, lineage, org, project, pipeline,
}
use jetrun.Core.Permission.{Permission, holds}
use jetrun.Core.Scope.Cover.{IsWithin, own_id}
use jetrun.Core.Id.{TypedId, IdKind, to_canonical}
use jetrun.Authz.Tables.{
  Database, Assignment, is_active_principal, query_permissions, parse_keys, permission_keys,
}
use jetrun.Authz.Tables.Queries.{
  IsActiveUser, IsActiveAccount, HasGrant, IsAtLevel, IsActiveUser-iff, IsActiveAccount-iff,
  permission_keys_iff,
}

module _ {Ulid : Type 0} (to_string : Ulid → Bytes) where
  abbrev pub IsActive : Database → Principal Ulid → Type 0
  IsActive db (system_principal o) = Unit
  IsActive db (user_principal o u) =
      IsActiveUser db (to_canonical to_string o) (to_canonical to_string u)
  IsActive db (service_account_principal o sa) =
      IsActiveAccount db (to_canonical to_string o) (to_canonical to_string sa)

  abbrev level_of : Scope Ulid → ScopeKind × Bytes
  level_of t = (scope_kind t, own_id to_string t)

  -- An assignment stands at the scope or at one above it.
  abbrev pub IsAbove : Scope Ulid → Assignment → Type 0
  IsAbove scope ra =
      (t : Scope Ulid) × IsWithin scope t
      × ((ra.scope_kind ≡ scope_kind_str (scope_kind t)) × (ra.scope_id ≡ own_id to_string t))

  abbrev pub IsGranted : Database → Principal Ulid → Scope Ulid → Permission → Type 0
  IsGranted db (system_principal o) scope p = ⊥
  IsGranted db (user_principal o u) scope p =
      HasGrant db (to_canonical to_string o) (to_canonical to_string u) (IsAbove scope) p
  IsGranted db (service_account_principal o sa) scope p =
      HasGrant db (to_canonical to_string o) (to_canonical to_string sa) (IsAbove scope) p

  pub IsActive-iff :
      (db : Database) (principal : Principal Ulid)
      → Reflects (is_active_principal to_string db principal) (IsActive db principal)
  unfolding is_active_principal
  IsActive-iff db (system_principal o) = (λ h. tt, λ w. refl)
  IsActive-iff db (user_principal o u) = IsActiveUser-iff db _ _
  IsActive-iff db (service_account_principal o sa) = IsActiveAccount-iff db _ _

  level_path :
      {kind : IdKind} {a b : TypedId kind Ulid} {k : ScopeKind}
      → a ≡ b
      → ◌≡◌ {A = ScopeKind × Bytes} (k, to_canonical to_string b) (k, to_canonical to_string a)
  level_path {k = k} q = ap (λ x. (k, to_canonical to_string x)) (sym q)

  within-lineage : (s t : Scope Ulid) → IsWithin s t → In (level_of t) (lineage to_string s)
  unfolding lineage scope_kind
  within-lineage (org_scope o) (org_scope o') q = inl (level_path q)
  within-lineage (org_scope o) (project_scope o' p') q = absurd q
  within-lineage (org_scope o) (pipeline_scope o' p' l') q = absurd q
  within-lineage (project_scope o p) (org_scope o') q = inr (inl (level_path q))
  within-lineage (project_scope o p) (project_scope o' p') q = inl (level_path q.1)
  within-lineage (project_scope o p) (pipeline_scope o' p' l') q = absurd q
  within-lineage (pipeline_scope o p l) (org_scope o') q = inr (inr (inl (level_path q)))
  within-lineage (pipeline_scope o p l) (project_scope o' p') q = inr (inl (level_path q.1))
  within-lineage (pipeline_scope o p l) (pipeline_scope o' p' l') q = inl (level_path q.2)

  lineage-IsWithin :
      (s : Scope Ulid) (level : ScopeKind × Bytes)
      → In level (lineage to_string s)
      → (t : Scope Ulid) × IsWithin s t × (level ≡ level_of t)
  unfolding lineage scope_kind
  lineage-IsWithin (org_scope o) level (inl q) = (org_scope o, refl, q)
  lineage-IsWithin (org_scope o) level (inr m) = absurd m
  lineage-IsWithin (project_scope o p) level (inl q) = (project_scope o p, (refl, refl), q)
  lineage-IsWithin (project_scope o p) level (inr (inl q)) = (org_scope o, refl, q)
  lineage-IsWithin (project_scope o p) level (inr (inr m)) = absurd m
  lineage-IsWithin (pipeline_scope o p l) level (inl q) =
      (pipeline_scope o p l, (refl, refl, refl), q)
  lineage-IsWithin (pipeline_scope o p l) level (inr (inl q)) = (project_scope o p, (refl, refl), q)
  lineage-IsWithin (pipeline_scope o p l) level (inr (inr (inl q))) = (org_scope o, refl, q)
  lineage-IsWithin (pipeline_scope o p l) level (inr (inr (inr m))) = absurd m

  IsAtLevel-iff :
      (scope : Scope Ulid) (ra : Assignment)
      → IsAtLevel (lineage to_string scope) ra ↔ IsAbove scope ra
  IsAtLevel-iff scope ra = (
    λ w.
        let (level, m, e) = w in
        let (t, q, f) = lineage-IsWithin scope level m in
        (t, q, (e.0 ∙ ap (λ x. scope_kind_str x.0) f, e.1 ∙ ap (λ x. x.1) f)),
    λ w. let (t, q, e) = w in (level_of t, within-lineage scope t q, e),
  )

  grant_iff :
      (db : Database) (oid id : Bytes) (scope : Scope Ulid) (p : Permission)
      → Reflects
          (holds (parse_keys (permission_keys db oid id (lineage to_string scope))) p)
          (HasGrant db oid id (IsAbove scope) p)
  grant_iff db oid id scope p = Reflects-trans (permission_keys_iff db oid id _ p) (
    λ w.
        let (ra, m, (rp, n, ((a, (b, (c, d))), e))) = w in
        (ra, m, (rp, n, ((a, (b, (c, (IsAtLevel-iff scope ra).0 d))), e))),
    λ w.
        let (ra, m, (rp, n, ((a, (b, (c, d))), e))) = w in
        (ra, m, (rp, n, ((a, (b, (c, (IsAtLevel-iff scope ra).1 d))), e))),
  )

  pub IsGranted-iff :
      (db : Database) (principal : Principal Ulid) (scope : Scope Ulid) (p : Permission)
      → Reflects
          (holds (query_permissions to_string db principal scope) p)
          (IsGranted db principal scope p)
  unfolding query_permissions jetrun.Core.Scope.id_string jetrun.Core.Scope.principal_org holds
  IsGranted-iff db (system_principal o) scope p = (λ h. cc, λ w. absurd w)
  IsGranted-iff db (user_principal o u) scope p = grant_iff db _ _ scope p
  IsGranted-iff db (service_account_principal o sa) scope p = grant_iff db _ _ scope p

  -- What allows an action: the principal is the system, or the scope is of its organization, it is
  -- an active member there, and it is granted the permission. The standing and the grants may be read
  -- from two databases.
  abbrev pub IsAllowed : Database → Database → Principal Ulid → Scope Ulid → Permission → Type 0
  IsAllowed db db' principal scope p =
      (is_system principal ≡ true)
      ⊎ ((scope_org scope ≡ principal_org principal)
          × (IsActive db principal × IsGranted db' principal scope p))
