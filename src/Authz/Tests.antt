-- ===== src/Authz/Tests.antt =====
-- crates/jet-authz/src/lib.rs: one organization with a user, a role and a project, and what is decided
-- there. An identifier is a number, whose text is that one code.
use jetrun.Authz.Cache.Entries.{IsPlaced}
use jetrun.Core.Permission.{
  discriminant, find, from_str, perm_eq, holds, Permission, pipeline_run, pipeline_write, as_str,
}
use jetrun.Core.Scope.{
  is_system, scope_org, principal_org, id_string, lineage, scope_kind, scope_kind_str, Principal,
  user_principal, Scope, pipeline_scope,
}
use jetrun.Core.Id.{to_canonical, TypedId, IdKind}
use jetrun.Authz.Tables.{
  is_active_principal, count_where, join, parse_keys, permission_keys, teams_of, Database,
  query_permissions,
}
use jetrun.Authz.Cache.{get, fill, insert, key_eq, CacheKey, new_cache, key, probe}
use jetrun.Authz.Decision.{
  permissions, scope_label, Reads, authorize, effective_permissions, denied, missing_permission,
}
use jetrun.Prelude.{
  flat_map, bytes_eq, any, keep, ℕ, ◌^◌, ◌<◌, ◌≡◌, refl, ap, ◌↔◌, ◌⊎◌, inl, inr, Bool, true, none,
  some, List, [], ◌∷◌, arith, ◌==◌, ==_iff, Reflects, Bytes, codes, ok, err,
}
use jetrun.Authz.Grants.{IsActive, IsAllowed}
use jetrun.Authz.Verdict.{authorize_iff, authorize-effective_permissions}
use jetrun.Authz.Standing.{authorize-standing}
use jetrun.Authz.Coherence.{
  State, start, called, stored, asked, answered, Reachable, initial, next, ask, query, store,
}
use jetrun.Authz.Coherence.Invariant.{IsFresh}
use jetrun.Authz.Coherence.Current.{IsSettled, hit-IsFresh, authorize-current}

abbrev text : ℕ → Bytes
text n = n ∷ []

abbrev same : ℕ → ℕ → Bool
same a b = a == b

same_iff : (a b : ℕ) → Reflects (same a b) (a ≡ b)
same_iff a b = ==_iff a b

abbrev id : {kind : IdKind} → ℕ → TypedId kind ℕ
id n = record { ulid = n }

abbrev tables : Database
tables = record {
  memberships = record { org_id = text 1; user_id = text 2; status = codes "active" } ∷ [];
  users = record { id = text 2; status = codes "active" } ∷ [];
  service_accounts = [];
  role_assignments =
      record {
        org_id = text 1;
        principal_kind = codes "user";
        principal_id = text 2;
        role_id = text 9;
        scope_kind = codes "project";
        scope_id = text 3;
      }
      ∷ [];
  role_permissions = record { role_id = text 9; permission_key = codes "pipeline.run" } ∷ [];
  team_members = [];
  teams = [];
}

abbrev user : Principal ℕ
user = user_principal (id 1) (id 2)

abbrev place : Scope ℕ
place = pipeline_scope (id 1) (id 3) (id 4)

abbrev reads : Reads ℕ
reads = record { looked_at = 5; stored_at = 6; standing = ok tables; grants = ok tables }

-- The grant at the project reaches its pipeline, for what the role includes and no more.
runs_pipeline : (authorize text same new_cache user pipeline_run place reads).0 ≡ ok tt
unfolding authorize is_system scope_org principal_org is_active_principal count_where join flat_map
    bytes_eq to_canonical permissions key id_string probe get holds query_permissions parse_keys
    fill insert key_eq scope_label permission_keys teams_of as_str discriminant find from_str
    perm_eq lineage scope_kind scope_kind_str any keep
runs_pipeline = refl

writes_no_pipeline :
    (authorize text same new_cache user pipeline_write place reads).0
    ≡ err (denied (missing_permission pipeline_write (codes "pipeline")))
unfolding authorize is_system scope_org principal_org is_active_principal count_where join flat_map
    bytes_eq to_canonical permissions key id_string probe get holds query_permissions parse_keys
    fill insert key_eq scope_label permission_keys teams_of as_str discriminant find from_str
    perm_eq lineage scope_kind scope_kind_str any keep
writes_no_pipeline = refl

empty_misses : (k : CacheKey) → key text user place ≡ some k → probe new_cache k 5 ≡ none
unfolding probe get
empty_misses k h = refl

authorize_iff_example :
    ((authorize text same new_cache user pipeline_run place reads).0 ≡ ok tt)
    ↔ IsAllowed text tables tables user place pipeline_run
authorize_iff_example =
    authorize_iff text same new_cache user pipeline_run place reads same_iff tables tables
      empty_misses refl refl

authorize-effective_permissions_example :
    (((authorize text same new_cache user pipeline_run place reads).0 ≡ ok tt) ↔ (
      (ps : List Permission) × ((effective_permissions text same new_cache user place reads).0
        ≡ ok ps)
      × (holds ps pipeline_run ≡ true)))
    × ((authorize text same new_cache user pipeline_run place reads).1
        ≡ (effective_permissions text same new_cache user place reads).1)
authorize-effective_permissions_example =
    authorize-effective_permissions text same new_cache user pipeline_run place reads

authorize-standing_example :
    (is_system user ≡ true)
    ⊎ ((scope_org place ≡ principal_org user)
        × ((db : Database) × (reads.standing ≡ ok db) × IsActive text db user))
authorize-standing_example =
    authorize-standing text same new_cache user pipeline_run place reads same_iff runs_pipeline

-- A call has asked, queried and stored, so the next one hits.
abbrev user_key : CacheKey
user_key = (text 1, text 2, codes "pipeline", text 4)

abbrev asking : State ℕ
asking = called (start tables) (asked user place user_key 0)

abbrev answering : State ℕ
answering = called asking (answered user_key 0 (query_permissions text tables user place))

abbrev warm : State ℕ
warm = stored answering user_key 0 (query_permissions text tables user place) 6

abbrev project_of : Bytes → Bytes
project_of l = text 3

abbrev org_of : Bytes → Bytes
org_of p = text 1

has_key : key text user place ≡ some user_key
unfolding key id_string to_canonical principal_org scope_kind scope_kind_str
has_key = refl

place-IsPlaced : IsPlaced text project_of org_of place
unfolding to_canonical
place-IsPlaced = (refl, refl)

asking-Reachable : Reachable text project_of org_of asking
unfolding start
asking-Reachable =
    next (initial tables) (ask (start tables) user place user_key place-IsPlaced has_key)

warm-Reachable : Reachable text project_of org_of warm
unfolding start
warm-Reachable =
    next (next asking-Reachable (query asking user place user_key 0 (inl refl)))
      (store answering user_key 0 _ 6 (inl refl))

warm-IsSettled : IsSettled warm
unfolding start
warm-IsSettled at (inl q) le = ap (λ x. x.1) q
warm-IsSettled at (inr m) le = absurd m

few : warm.invalidated < 2 ^ 64
unfolding start
few = omega arith

hits : probe warm.cache user_key 5 ≡ some (query_permissions text tables user place)
unfolding probe get fill insert key_eq bytes_eq start
hits = refl

hit-IsFresh_example :
    IsFresh text project_of org_of warm.past user_key warm.cache.generation
      (query_permissions text tables user place)
hit-IsFresh_example = hit-IsFresh text project_of org_of warm user_key 5 _ warm-Reachable hits

tables_read : reads.standing ≡ ok warm.db
unfolding start
tables_read = refl

authorize-current_example :
    ((authorize text same warm.cache user pipeline_run place reads).0 ≡ ok tt)
    ↔ IsAllowed text warm.db warm.db user place pipeline_run
authorize-current_example =
    authorize-current text project_of org_of warm warm-Reachable few warm-IsSettled user place
      place-IsPlaced reads same pipeline_run same_iff tables_read tables_read
