-- ===== src/Authz/Coherence/Invariant.antt =====
-- crates/jet-authz/src/lib.rs: every cached answer is one that the database gave no earlier than the
-- invalidation that its generation counts.
use jetrun.Prelude.{
  ◌+◌, ◌≢◌, none, if◌then◌else◌, Bool-cases, ℕ, ◌%◌, ◌^◌, ◌≤◌, ◌≡◌, refl, sym, subst, inl, inr,
  some, List, ◌∷◌, arith, In, Bytes,
}
use jetrun.Core.Permission.{Permission}
use jetrun.Core.Scope.{Principal, Scope}
use jetrun.Authz.Tables.{Database, query_permissions}
use jetrun.Authz.Cache.{CacheKey, CacheEntry, fill, key, key_eq, get}
use jetrun.Authz.Cache.Entries.{IsPlaced, get-insert_entry, key_eq_iff}
use jetrun.Authz.Coherence.{
  State, Call, asked, answered, start, changed, bumped, Step, change, bump_generation,
  clear_entries, ask, query, store,
}

next_count : (g n : ℕ) → g ≡ n % 2 ^ 64 → (g + 1) % 2 ^ 64 ≡ (n + 1) % 2 ^ 64
next_count g n h = omega arith

below : (g n : ℕ) → g ≡ n % 2 ^ 64 → g ≤ n
below g n h = omega arith

module _ {Ulid : Type 0} (to_string : Ulid → Bytes) (project_of org_of : Bytes → Bytes) where
  -- The answer is that of a database that was current when the cache had been invalidated at least
  -- as often as the generation says.
  abbrev pub IsFresh : List (ℕ × Database) → CacheKey → ℕ → List Permission → Type 0
  IsFresh past k gen perms =
      (at : ℕ × Database) × In at past
      × (gen ≤ at.0)
      × ((principal : Principal Ulid) × ((scope : Scope Ulid) × (IsPlaced to_string project_of
                org_of scope
              × (key to_string principal scope ≡ some k)
              × (perms ≡ query_permissions to_string at.1 principal scope))))

  abbrev IsGoodCall : State Ulid → Call Ulid → Type 0
  IsGoodCall s (asked principal scope k gen) =
      IsPlaced to_string project_of org_of scope
      × (key to_string principal scope ≡ some k)
      × (gen ≤ s.invalidated)
  IsGoodCall s (answered k gen perms) = IsFresh s.past k gen perms

  pub record Coherent (s : State Ulid) : Type 0 where
    pub counted : s.cache.generation ≡ s.invalidated % 2 ^ 64
    pub current : In (s.invalidated, s.db) s.past
    pub calls_good : (call : Call Ulid) → In call s.calls → IsGoodCall s call
    pub entries_fresh :
        (k : CacheKey) (e : CacheEntry)
        → get k s.cache.entries ≡ some e
        → IsFresh s.past k e.generation e.permissions

  -- A longer past, and a higher count, keep what is good.
  IsFresh-later :
      (past : List (ℕ × Database)) (k : CacheKey) (gen : ℕ) (perms : List Permission)
      (at : ℕ × Database)
      → IsFresh past k gen perms
      → IsFresh (at ∷ past) k gen perms
  IsFresh-later past k gen perms at w = (w.0, inr w.1, w.2, w.3)

  good-later :
      (s t : State Ulid) (at : ℕ × Database)
      → t.past ≡ at ∷ s.past
      → s.invalidated ≤ t.invalidated
      → (call : Call Ulid) → IsGoodCall s call
      → IsGoodCall t call
  good-later s t at e le (asked principal scope k gen) g = (g.0, g.1, omega (arith, g.2, le))
  good-later s t at e le (answered k gen perms) g =
      subst (λ past. IsFresh past k gen perms) (sym e) (IsFresh-later s.past k gen perms at g)

  none≢some : {a : CacheEntry} → none ≢ some a
  none≢some h = cc

  some-injective : {a b : CacheEntry} → some a ≡ some b → a ≡ b
  some-injective h = cc

  stored-IsFresh :
      (s : State Ulid) (k : CacheKey) (gen : ℕ) (perms : List Permission) (now : ℕ)
      → Coherent s
      → In (answered k gen perms) s.calls
      → (j : CacheKey) (e : CacheEntry)
      → (if key_eq k j
          then some (record { permissions = perms; generation = gen; at = now })
          else get j s.cache.entries)
        ≡ some e
      → IsFresh s.past j e.generation e.permissions
  stored-IsFresh s k gen perms now c m j e h = elim (Bool-cases (key_eq k j)) [
    | inl q ↦
        subst (λ e. IsFresh s.past j e.generation e.permissions) (some-injective (rw q at h))
          (subst (λ j. IsFresh s.past j gen perms) ((key_eq_iff k j).0 q) (c.calls_good _ m))
    | inr q ↦ c.entries_fresh j e (rw q at h)
  ]

  pub start-Coherent : (db : Database) → Coherent (start db)
  unfolding start get
  start-Coherent db = record {
    counted = refl;
    current = inl refl;
    calls_good = λ call m. absurd m;
    entries_fresh = λ k e h. cc;
  }

  pub Step-Coherent :
      (s t : State Ulid) → Coherent s → Step to_string project_of org_of s t → Coherent t
  unfolding fill get
  Step-Coherent s _ c (change _ db) = record {
    counted = c.counted;
    current = inl refl;
    calls_good =
        λ call m. good-later s (changed s db) _ refl (omega arith) call (c.calls_good call m);
    entries_fresh =
        λ k e h. IsFresh-later s.past k e.generation e.permissions _ (c.entries_fresh k e h);
  }
  Step-Coherent s _ c (bump_generation _) = record {
    counted = next_count _ _ c.counted;
    current = inl refl;
    calls_good = λ call m. good-later s (bumped s) _ refl (omega arith) call (c.calls_good call m);
    entries_fresh =
        λ k e h. IsFresh-later s.past k e.generation e.permissions _ (c.entries_fresh k e h);
  }
  Step-Coherent s _ c (clear_entries _) = record {
    counted = c.counted;
    current = c.current;
    calls_good = c.calls_good;
    entries_fresh = λ k e h. absurd (none≢some h);
  }
  Step-Coherent s _ c (ask _ principal scope k placed h) = record {
    counted = c.counted;
    current = c.current;
    calls_good = λ call m. elim m [
      | inl q ↦ subst (IsGoodCall s) (sym q) (placed, h, below _ _ c.counted)
      | inr n ↦ c.calls_good call n
    ];
    entries_fresh = c.entries_fresh;
  }
  Step-Coherent s _ c (query _ principal scope k gen m) = record {
    counted = c.counted;
    current = c.current;
    calls_good = λ call n. elim n [
      | inl q ↦
          let g = c.calls_good _ m in
          subst (IsGoodCall s) (sym q)
            ((s.invalidated, s.db), c.current, g.2, (principal, (scope, (g.0, g.1, refl))))
      | inr n ↦ c.calls_good call n
    ];
    entries_fresh = c.entries_fresh;
  }
  Step-Coherent s _ c (store _ k gen perms now m) = record {
    counted = c.counted;
    current = c.current;
    calls_good = c.calls_good;
    entries_fresh = λ j e h.
        stored-IsFresh s k gen perms now c m j e (rw (get-insert_entry j k _ s.cache.entries) at h);
  }
