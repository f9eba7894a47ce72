-- ===== src/Authz/Coherence.antt =====
-- crates/jet-authz/src/lib.rs: the cache under concurrency. Calls of `permissions`, changes of the
-- database and invalidations interleave at the points where the code lets them: a call loads the
-- generation, looks into the cache, queries, and stores. A call may answer and store more than once
-- here, which only adds behaviours.
pub mod Invariant
pub mod Current
use jetrun.Prelude.{ℕ, ◌+◌, ◌≡◌, some, List, [], ◌∷◌, In, Bytes}
use jetrun.Core.Permission.{Permission}
use jetrun.Core.Scope.{Principal, Scope}
use jetrun.Authz.Tables.{Database, query_permissions}
use jetrun.Authz.Cache.{CacheKey, DecisionCache, new_cache, bump, clear, fill, key}
use jetrun.Authz.Cache.Entries.{IsPlaced}

-- A call that has loaded the generation, and one that has its answer and is about to store it.
pub data Call (Ulid : Type 0) : Type 0 where
  asked : Principal Ulid → Scope Ulid → CacheKey → ℕ → Call Ulid
  answered : CacheKey → ℕ → List Permission → Call Ulid

-- The state, with two records of the past: how often the cache was invalidated, and each database
-- that was current, with the count at that time.
pub record State (Ulid : Type 0) : Type 0 where
  pub db : Database
  pub cache : DecisionCache
  pub calls : List (Call Ulid)
  pub invalidated : ℕ
  pub past : List (ℕ × Database)

module _ {Ulid : Type 0} where
  unfoldable pub start : Database → State Ulid
  start db = record { db = db; cache = new_cache; calls = []; invalidated = 0; past = (0, db) ∷ [] }

  -- A transaction commits.
  abbrev pub changed : State Ulid → Database → State Ulid
  changed s db = record s { db = db; past = (s.invalidated, db) ∷ s.past }

  -- The generation is bumped; the entries are cleared in a step of their own.
  abbrev pub bumped : State Ulid → State Ulid
  bumped s = record s {
    cache = bump s.cache;
    invalidated = s.invalidated + 1;
    past = (s.invalidated + 1, s.db) ∷ s.past;
  }

  abbrev pub cleared : State Ulid → State Ulid
  cleared s = record s { cache = clear s.cache }

  abbrev pub called : State Ulid → Call Ulid → State Ulid
  called s call = record s { calls = call ∷ s.calls }

  abbrev pub stored : State Ulid → CacheKey → ℕ → List Permission → ℕ → State Ulid
  stored s k gen_now perms now = record s { cache = fill s.cache k gen_now perms now }

module _ {Ulid : Type 0} (to_string : Ulid → Bytes) (project_of org_of : Bytes → Bytes) where
  pub data Step : State Ulid → State Ulid → Type 0 where
    change : (s : State Ulid) (db : Database) → Step s (changed s db)
    bump_generation : (s : State Ulid) → Step s (bumped s)
    clear_entries : (s : State Ulid) → Step s (cleared s)
    -- `key`, then the load of the generation.
    ask :
        (s : State Ulid) (principal : Principal Ulid) (scope : Scope Ulid) (k : CacheKey)
        → IsPlaced to_string project_of org_of scope
        → key to_string principal scope ≡ some k
        → Step s (called s (asked principal scope k s.cache.generation))
    -- `query_permissions`, after a miss.
    query :
        (s : State Ulid) (principal : Principal Ulid) (scope : Scope Ulid) (k : CacheKey)
        (gen_now : ℕ)
        → In (asked principal scope k gen_now) s.calls
        → Step s (called s (answered k gen_now (query_permissions to_string s.db principal scope)))
    -- The insertion, behind the lock.
    store :
        (s : State Ulid) (k : CacheKey) (gen_now : ℕ) (perms : List Permission) (now : ℕ)
        → In (answered k gen_now perms) s.calls
        → Step s (stored s k gen_now perms now)

  pub data Reachable : State Ulid → Type 0 where
    initial : (db : Database) → Reachable (start db)
    next : {s t : State Ulid} → Reachable s → Step s t → Reachable t
