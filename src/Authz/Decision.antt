-- ===== src/Authz/Decision.antt =====
-- crates/jet-authz/src/lib.rs: the authorizer. A query of the database is its outcome: the tables it
-- saw, or the error of the store, whose type is a parameter. The two queries of one call may see two
-- databases.
use jetrun.Prelude.{
  ℕ, Bool, true, false, Option, none, some, List, [], if◌then◌else◌, Result, Bytes, codes, ok, err,
}
use jetrun.Core.Permission.{Permission, all, holds}
use jetrun.Core.Scope.{
  Principal, is_system, principal_org, Scope, scope_org, scope_kind, ScopeKind, org, project,
  pipeline,
}
use jetrun.Core.Id.{TypedId, IdKind}
use jetrun.Authz.Tables.{Database, is_active_principal, query_permissions}
use jetrun.Authz.Cache.{CacheKey, DecisionCache, probe, fill, key}

pub data Denied : Type 0 where
  missing_permission : Permission → Bytes → Denied
  not_a_member : Denied
  wrong_org : Denied

pub data AuthzError (StoreError : Type 0) : Type 0 where
  denied : Denied → AuthzError StoreError
  store : StoreError → AuthzError StoreError

-- The name of a scope in a refusal.
unfoldable pub scope_label : ScopeKind → Bytes
scope_label org = codes "organization"
scope_label project = codes "project"
scope_label pipeline = codes "pipeline"

module _ {Ulid : Type 0} (ulid_eq : Ulid → Ulid → Bool) where
  -- The derived `PartialEq` of an identifier.
  abbrev pub id_eq : {kind : IdKind} → TypedId kind Ulid → TypedId kind Ulid → Bool
  id_eq a b = ulid_eq a.ulid b.ulid

-- What a call reads: the clock when it looks into the cache and when it stores an answer, and the
-- outcomes of its queries.
pub record Reads (StoreError : Type 0) : Type 0 where
  pub looked_at : ℕ
  pub stored_at : ℕ
  pub standing : Result Database StoreError
  pub grants : Result Database StoreError

module _ {StoreError : Type 0} where
  -- `map_err(StoreError::from)?`
  abbrev pub queried :
      {A : Type 0} → (Database → A) → Result Database StoreError → Result A (AuthzError StoreError)
  queried f (ok db) = ok (f db)
  queried f (err e) = err (store e)

module _ {Ulid StoreError : Type 0} (to_string : Ulid → Bytes) where
  -- The miss of `permissions`: query, then store.
  abbrev pub filled :
      DecisionCache
      → CacheKey
      → Reads StoreError
      → Result (List Permission) (AuthzError StoreError)
      → Result (List Permission) (AuthzError StoreError) × DecisionCache
  filled c k reads (ok perms) = (ok perms, fill c k c.generation perms reads.stored_at)
  filled c k reads (err e) = (err e, c)

  abbrev pub looked_up :
      DecisionCache
      → Principal Ulid
      → Scope Ulid
      → Reads StoreError
      → CacheKey
      → Option (List Permission)
      → Result (List Permission) (AuthzError StoreError) × DecisionCache
  looked_up c principal scope reads k (some perms) = (ok perms, c)
  looked_up c principal scope reads k none =
      filled c k reads (queried (λ db. query_permissions to_string db principal scope) reads.grants)

  abbrev pub keyed :
      DecisionCache
      → Principal Ulid
      → Scope Ulid
      → Reads StoreError
      → Option CacheKey
      → Result (List Permission) (AuthzError StoreError) × DecisionCache
  keyed c principal scope reads none = (ok [], c)
  keyed c principal scope reads (some k) =
      looked_up c principal scope reads k (probe c k reads.looked_at)

  -- `DecisionCache::permissions`
  unfoldable pub permissions :
      DecisionCache
      → Principal Ulid
      → Scope Ulid
      → Reads StoreError
      → Result (List Permission) (AuthzError StoreError) × DecisionCache
  permissions c principal scope reads =
      keyed c principal scope reads (key to_string principal scope)

  module _ (ulid_eq : Ulid → Ulid → Bool) where
    abbrev pub decided :
        Permission
        → Scope Ulid
        → Result (List Permission) (AuthzError StoreError)
        → Result (Unit {0}) (AuthzError StoreError)
    decided p scope (err e) = err e
    decided p scope (ok held) =
        if holds held p
        then ok tt
        else err (denied (missing_permission p (scope_label (scope_kind scope))))

    abbrev pub on_standing :
        DecisionCache
        → Principal Ulid
        → Permission
        → Scope Ulid
        → Reads StoreError
        → Result Bool (AuthzError StoreError)
        → Result (Unit {0}) (AuthzError StoreError) × DecisionCache
    on_standing c principal p scope reads (err e) = (err e, c)
    on_standing c principal p scope reads (ok false) = (err (denied not_a_member), c)
    on_standing c principal p scope reads (ok true) =
        let (held, after) = permissions c principal scope reads in (decided p scope held, after)

    -- `authorize`
    unfoldable pub authorize :
        DecisionCache
        → Principal Ulid
        → Permission
        → Scope Ulid
        → Reads StoreError
        → Result (Unit {0}) (AuthzError StoreError) × DecisionCache
    authorize c principal p scope reads =
        if is_system principal
        then (ok tt, c)
        else if id_eq ulid_eq (scope_org scope) (principal_org principal)
        then on_standing c principal p scope reads
            (queried (λ db. is_active_principal to_string db principal) reads.standing)
        else (err (denied wrong_org), c)

    abbrev pub effective_on_standing :
        DecisionCache
        → Principal Ulid
        → Scope Ulid
        → Reads StoreError
        → Result Bool (AuthzError StoreError)
        → Result (List Permission) (AuthzError StoreError) × DecisionCache
    effective_on_standing c principal scope reads (err e) = (err e, c)
    effective_on_standing c principal scope reads (ok false) = (ok [], c)
    effective_on_standing c principal scope reads (ok true) = permissions c principal scope reads

    -- `effective_permissions`
    unfoldable pub effective_permissions :
        DecisionCache
        → Principal Ulid
        → Scope Ulid
        → Reads StoreError
        → Result (List Permission) (AuthzError StoreError) × DecisionCache
    effective_permissions c principal scope reads =
        if is_system principal
        then (ok all, c)
        else if id_eq ulid_eq (scope_org scope) (principal_org principal)
        then effective_on_standing c principal scope reads
            (queried (λ db. is_active_principal to_string db principal) reads.standing)
        else (ok [], c)
