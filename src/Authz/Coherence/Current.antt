-- ===== src/Authz/Coherence/Current.antt =====
-- crates/jet-authz/src/lib.rs: once the cache has been invalidated after the last change of the
-- database, no decision answers from the rows of before.
use jetrun.Prelude.{
  ◌%◌, refl, sym, ◌↔◌, Bool, [], arith, Reflects, ℕ, ◌^◌, ◌≤◌, ◌<◌, ◌≡◌, ap, ◌∙◌, subst, Option,
  none, some, List, In, Bytes, ok,
}
use jetrun.Authz.Decision.{filled, looked_up, keyed, Reads, permissions, authorize, queried}
use jetrun.Core.Permission.{Permission}
use jetrun.Core.Scope.{
  Principal, user_principal, service_account_principal, system_principal, Scope, id_string,
}
use jetrun.Authz.Tables.{Database, query_permissions}
use jetrun.Authz.Cache.{CacheKey, key, probe}
use jetrun.Authz.Cache.Entries.{IsPlaced, probe-some, key-query_permissions}
use jetrun.Authz.Grants.{IsAllowed}
use jetrun.Authz.Verdict.{authorize-permissions}
use jetrun.Authz.Coherence.{State, Reachable, initial, next}
use jetrun.Authz.Coherence.Invariant.{IsFresh, Coherent, start-Coherent, Step-Coherent}

-- No change since the last invalidation: whatever was current from then on is what is current now.
abbrev pub IsSettled : {Ulid : Type 0} → State Ulid → Type 0
IsSettled s = (at : ℕ × Database) → In at s.past → s.invalidated ≤ at.0 → at.1 ≡ s.db

counts : (g n m : ℕ) → g ≡ n % 2 ^ 64 → n < 2 ^ 64 → g ≤ m → n ≤ m
counts g n m h few le = omega arith

module _ {Ulid : Type 0} (to_string : Ulid → Bytes) (project_of org_of : Bytes → Bytes) where
  Reachable-Coherent :
      (s : State Ulid)
      → Reachable to_string project_of org_of s
      → Coherent to_string project_of org_of s
  Reachable-Coherent _ (initial db) = start-Coherent to_string project_of org_of db
  Reachable-Coherent _ (next {s} {t} r step) =
      Step-Coherent to_string project_of org_of s t (Reachable-Coherent s r) step

  -- However calls, changes and invalidations interleave: an answer from the cache is one that some
  -- database gave which was current when the cache had been invalidated as often as its generation
  -- says, or later, for a principal and a scope of the same key.
  pub hit-IsFresh :
      (s : State Ulid) (k : CacheKey) (now : ℕ) (perms : List Permission)
      → Reachable to_string project_of org_of s
      → probe s.cache k now ≡ some perms
      → IsFresh to_string project_of org_of s.past k s.cache.generation perms
  hit-IsFresh s k now perms r h =
      let c = Reachable-Coherent s r in
      let (e, get_e, gen_e, perms_e) = probe-some s.cache k now perms h in
      subst (λ g. IsFresh to_string project_of org_of s.past k g perms) gen_e
        (subst (IsFresh to_string project_of org_of s.past k e.generation) perms_e
          (c.entries_fresh k e get_e))

  module _ (s : State Ulid) (r : Reachable to_string project_of org_of s)
      (few : s.invalidated < 2 ^ 64) (settled : IsSettled s) (principal : Principal Ulid)
      (scope : Scope Ulid) (placed : IsPlaced to_string project_of org_of scope) where
    hit-current :
        (k : CacheKey) (now : ℕ) (perms : List Permission)
        → key to_string principal scope ≡ some k
        → probe s.cache k now ≡ some perms
        → perms ≡ query_permissions to_string s.db principal scope
    hit-current k now perms hk h =
        let (at, m, le, w) = hit-IsFresh s k now perms r h in
        let (q, (t, (pt, kt, e))) = w in
        e
        ∙ (key-query_permissions to_string project_of org_of at.1 q principal t scope k pt placed kt
              hk
            ∙ ap (λ db. query_permissions to_string db principal scope)
                (settled at m (counts _ _ _ (Reachable-Coherent s r).counted few le)))

    module _ {StoreError : Type 0} (reads : Reads StoreError) where
      looked-current :
          (k : CacheKey) (o : Option (List Permission))
          → key to_string principal scope ≡ some k
          → probe s.cache k reads.looked_at ≡ o
          → reads.grants ≡ ok s.db
          → (looked_up to_string s.cache principal scope reads k o).0
            ≡ ok (query_permissions to_string s.db principal scope)
      looked-current k (some perms) hk h g = ap ok (hit-current k _ perms hk h)
      looked-current k none hk h g =
          ap
            (λ r.
              (filled to_string s.cache k reads
                (queried (λ db. query_permissions to_string db principal scope) r)).0)
            g

      -- A principal without a key is the system, which holds no grant.
      key-none :
          (a : Principal Ulid)
          → key to_string a scope ≡ none
          → query_permissions to_string s.db a scope ≡ []
      unfolding key query_permissions id_string
      key-none (user_principal o u) h = cc
      key-none (service_account_principal o sa) h = cc
      key-none (system_principal o) h = refl

      keyed-current :
          (o : Option CacheKey)
          → key to_string principal scope ≡ o
          → reads.grants ≡ ok s.db
          → (keyed to_string s.cache principal scope reads o).0
            ≡ ok (query_permissions to_string s.db principal scope)
      keyed-current none h g = ap ok (sym (key-none principal h))
      keyed-current (some k) h g = looked-current k _ h refl g

      permissions-current :
          reads.grants ≡ ok s.db
          → (permissions to_string s.cache principal scope reads).0
            ≡ ok (query_permissions to_string s.db principal scope)
      unfolding permissions
      permissions-current g = keyed-current _ refl g

      -- Whatever interleaving led here: when fewer than 2^64 invalidations have happened, no change
      -- has been committed since the last of them, the scope carries its ancestors, and the equality test
      -- of ULIDs decides their equality, a decision
      -- whose queries see the current database is that of the current rows, hit or miss.
      pub authorize-current :
          (ulid_eq : Ulid → Ulid → Bool) (p : Permission)
          → ((a b : Ulid) → Reflects (ulid_eq a b) (a ≡ b))
          → reads.standing ≡ ok s.db
          → reads.grants ≡ ok s.db
          → ((authorize to_string ulid_eq s.cache principal p scope reads).0 ≡ ok tt)
            ↔ IsAllowed to_string s.db s.db principal scope p
      authorize-current ulid_eq p same h g =
          authorize-permissions to_string ulid_eq s.cache principal p scope reads same s.db s.db h
            (permissions-current g)
