-- ===== src/Authz/Cache.antt =====
-- crates/jet-authz/src/lib.rs: the decision cache. Times are milliseconds of a monotonic clock.
pub mod Entries
use jetrun.Prelude.{
  ℕ, ◌+◌, ◌-◌, ◌*◌, ◌%◌, ◌^◌, Bool, ◌&&◌, Option, none, some, List, [], ◌∷◌, ltb, ◌==◌,
  if◌then◌else◌, Bytes, bytes_eq,
}
use jetrun.Core.Permission.{Permission}
use jetrun.Core.Scope.{
  Principal, Scope, org_scope, project_scope, pipeline_scope, scope_kind, scope_kind_str,
  principal_org, id_string,
}
use jetrun.Core.Id.{to_canonical}

-- `CACHE_TTL`
abbrev pub cache_ttl : ℕ
cache_ttl = 30 * 1000

pub record CacheEntry : Type 0 where
  pub permissions : List Permission
  pub generation : ℕ
  pub at : ℕ

-- `CacheKey`: organization, principal, kind of scope, and the scope's own identifier.
abbrev pub CacheKey : Type 0
CacheKey = Bytes × Bytes × Bytes × Bytes

unfoldable pub key_eq : CacheKey → CacheKey → Bool
key_eq (a, b, c, d) (a', b', c', d') =
    bytes_eq a a' && (bytes_eq b b' && (bytes_eq c c' && bytes_eq d d'))

pub record DecisionCache : Type 0 where
  pub generation : ℕ
  pub entries : List (CacheKey × CacheEntry)

-- `HashMap::get` and `HashMap::insert`.
unfoldable pub get : CacheKey → List (CacheKey × CacheEntry) → Option CacheEntry
get k [] = none
get k ((j, e) ∷ es) = if key_eq j k then some e else get k es

unfoldable pub insert :
    CacheKey → CacheEntry → List (CacheKey × CacheEntry) → List (CacheKey × CacheEntry)
insert k e [] = (k, e) ∷ []
insert k e ((j, f) ∷ es) = if key_eq j k then (j, e) ∷ es else (j, f) ∷ insert k e es

-- `DecisionCache::new`
abbrev pub new_cache : DecisionCache
new_cache = record { generation = 0; entries = [] }

-- The two halves of `invalidate`: the counter is a `u64` that `fetch_add` wraps, then `clear`.
abbrev pub bump : DecisionCache → DecisionCache
bump c = record c { generation = (c.generation + 1) % 2 ^ 64 }

abbrev pub clear : DecisionCache → DecisionCache
clear c = record c { entries = [] }

unfoldable pub invalidate : DecisionCache → DecisionCache
invalidate c = clear (bump c)

-- The test of a cached entry: it is of this generation and not too old.
abbrev pub is_live : ℕ → ℕ → CacheEntry → Bool
is_live gen_now now e = e.generation == gen_now && ltb (now - e.at) cache_ttl

abbrev live_permissions : ℕ → ℕ → Option CacheEntry → Option (List Permission)
live_permissions gen_now now none = none
live_permissions gen_now now (some e) = if is_live gen_now now e then some e.permissions else none

-- The first half of `permissions`: the answer of the cache, if it has one.
unfoldable pub probe : DecisionCache → CacheKey → ℕ → Option (List Permission)
probe c k now = live_permissions c.generation now (get k c.entries)

-- The second half: an answer of the database is stored under the generation that was read before
-- the query.
unfoldable pub fill : DecisionCache → CacheKey → ℕ → List Permission → ℕ → DecisionCache
fill c k gen_now perms now = record c {
  entries = insert k (record { permissions = perms; generation = gen_now; at = now }) c.entries;
}

module _ {Ulid : Type 0} (to_string : Ulid → Bytes) where
  abbrev pub scope_own_id : Scope Ulid → Bytes
  scope_own_id (org_scope o) = to_canonical to_string o
  scope_own_id (project_scope o p) = to_canonical to_string p
  scope_own_id (pipeline_scope o p l) = to_canonical to_string l

  -- `DecisionCache::key`; `?` on the principal's identifier.
  abbrev keyed : Principal Ulid → Scope Ulid → Option Bytes → Option CacheKey
  keyed principal scope none = none
  keyed principal scope (some id) = some (
    to_canonical to_string (principal_org principal),
    id,
    scope_kind_str (scope_kind scope),
    scope_own_id scope,
  )

  unfoldable pub key : Principal Ulid → Scope Ulid → Option CacheKey
  key principal scope = keyed principal scope (id_string to_string principal)
