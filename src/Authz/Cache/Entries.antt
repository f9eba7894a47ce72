-- ===== src/Authz/Cache/Entries.antt =====
-- crates/jet-authz/src/lib.rs: the entries are a map from keys, and a key determines the query.
use jetrun.Prelude.{
  false, sym, ◌∙◌, ◌≢◌, inl, inr, true, Option, none, ==_iff, Bool-cases, &&-true, bytes_eq, ℕ, ◌≡◌,
  refl, ap, some, List, [], ◌∷◌, if◌then◌else◌, Reflects, Reflects-trans, &&_iff, Bytes,
  bytes_eq_iff,
}
use mathlib.Core.Bool.{false≢true}
use jetrun.Authz.Cache.{
  scope_own_id, live_permissions, CacheEntry, CacheKey, DecisionCache, key_eq, get, insert, probe,
  is_live, key,
}
use jetrun.Core.Permission.{Permission}
use jetrun.Core.Scope.{
  Principal, user_principal, service_account_principal, system_principal, Scope, org_scope,
  project_scope, pipeline_scope, lineage, scope_kind, scope_kind_str, principal_org, id_string,
}
use jetrun.Core.Id.{to_canonical}
use jetrun.Authz.Tables.{Database, query_permissions}

pub key_eq_iff : (j k : CacheKey) → Reflects (key_eq j k) (j ≡ k)
unfolding key_eq
key_eq_iff (a, b, c, d) (a', b', c', d') =
    Reflects-trans
      (&&_iff (bytes_eq_iff a a')
        (&&_iff (bytes_eq_iff b b') (&&_iff (bytes_eq_iff c c') (bytes_eq_iff d d'))))
      (
        λ w. λ i. (w.0 i, w.1.0 i, w.1.1.0 i, w.1.1.1 i),
        λ e. (ap (λ x. x.0) e, (ap (λ x. x.1) e, (ap (λ x. x.2) e, ap (λ x. x.3) e))),
      )

-- `insert` sets one key and leaves the others.
pub get-insert_entry :
    (j k : CacheKey) (e : CacheEntry) (es : List (CacheKey × CacheEntry))
    → get j (insert k e es) ≡ (if key_eq k j then some e else get j es)
unfolding get insert
get-insert_entry j k e [] = refl
get-insert_entry j k e ((i, f) ∷ es) = elim (Bool-cases (key_eq i k)) [
  | inl p ↦ elim (Bool-cases (key_eq i j)) [
    | inl q ↦ rw (p, q, sym (same p) ∙ q) refl
    | inr q ↦ rw (p, q, sym (same p) ∙ q) refl
  ]
  | inr p ↦ elim (Bool-cases (key_eq i j)) [
    | inl q ↦ rw (p, q, other p q) refl
    | inr q ↦ rw (p, q) (get-insert_entry j k e es)
  ]
]
  where
    same : key_eq i k ≡ true → key_eq i j ≡ key_eq k j
    same p = ap (λ x. key_eq x j) ((key_eq_iff i k).0 p)

    other : key_eq i k ≡ false → key_eq i j ≡ true → key_eq k j ≡ false
    other p q = elim (Bool-cases (key_eq k j)) [
      | inl r ↦ absurd (
          false≢true
            (sym p ∙ (key_eq_iff i k).1 ((key_eq_iff i j).0 q ∙ sym ((key_eq_iff k j).0 r))))
      | inr r ↦ r
    ]

live-some :
    (gen_now now : ℕ) (o : Option CacheEntry) (perms : List Permission)
    → live_permissions gen_now now o ≡ some perms
    → (e : CacheEntry) × (o ≡ some e) × (e.generation ≡ gen_now) × (e.permissions ≡ perms)
live-some gen_now now none perms h = cc
live-some gen_now now (some e) perms h = elim (Bool-cases (is_live gen_now now e)) [
  | inl p ↦ (e, refl, ((==_iff _ _).0 (&&-true _ _ p).0), (some-injective (rw p at h)))
  | inr p ↦ absurd (none≢some (rw p at h))
]
  where
    some-injective : {a b : List Permission} → some a ≡ some b → a ≡ b
    some-injective h = cc

    none≢some : {a : List Permission} → none ≢ some a
    none≢some h = cc

-- A hit is a live entry of the current generation.
pub probe-some :
    (c : DecisionCache) (k : CacheKey) (now : ℕ) (perms : List Permission)
    → probe c k now ≡ some perms
    → (e : CacheEntry) × (get k c.entries ≡ some e)
      × (e.generation ≡ c.generation)
      × (e.permissions ≡ perms)
unfolding probe
probe-some c k now perms h = live-some c.generation now (get k c.entries) perms h

module _ {Ulid : Type 0} (to_string : Ulid → Bytes) (project_of org_of : Bytes → Bytes) where
  -- A scope carries its ancestors: the project of its pipeline and the organization of its project.
  abbrev pub IsPlaced : Scope Ulid → Type 0
  IsPlaced (org_scope o) = Unit
  IsPlaced (project_scope o p) = to_canonical to_string o ≡ org_of (to_canonical to_string p)
  IsPlaced (pipeline_scope o p l) =
      (to_canonical to_string p ≡ project_of (to_canonical to_string l))
      × (to_canonical to_string o ≡ org_of (to_canonical to_string p))

  -- The kind of a scope and its own identifier determine its lineage.
  lineage-determined :
      (s t : Scope Ulid)
      → IsPlaced s
      → IsPlaced t
      → bytes_eq (scope_kind_str (scope_kind s)) (scope_kind_str (scope_kind t)) ≡ true
      → scope_own_id to_string s ≡ scope_own_id to_string t
      → lineage to_string s ≡ lineage to_string t
  unfolding lineage scope_kind scope_kind_str bytes_eq
  lineage-determined (org_scope o) (org_scope o') ps pt k e = rw e refl
  lineage-determined (org_scope o) (project_scope o' p') ps pt k e = cc
  lineage-determined (org_scope o) (pipeline_scope o' p' l') ps pt k e = cc
  lineage-determined (project_scope o p) (org_scope o') ps pt k e = cc
  lineage-determined (project_scope o p) (project_scope o' p') ps pt k e = rw (ps, pt, e) refl
  lineage-determined (project_scope o p) (pipeline_scope o' p' l') ps pt k e = cc
  lineage-determined (pipeline_scope o p l) (org_scope o') ps pt k e = cc
  lineage-determined (pipeline_scope o p l) (project_scope o' p') ps pt k e = cc
  lineage-determined (pipeline_scope o p l) (pipeline_scope o' p' l') ps pt k e =
      rw (ps.1, pt.1, ps.0, pt.0, e) refl

  -- The parts of a key.
  key-some :
      (a : Principal Ulid) (s : Scope Ulid) (k : CacheKey)
      → key to_string a s ≡ some k
      → (id : Bytes) × (id_string to_string a ≡ some id)
        × (k ≡ (
          to_canonical to_string (principal_org a),
          id,
          scope_kind_str (scope_kind s),
          scope_own_id to_string s,
        ))
  unfolding key id_string
  key-some (user_principal o u) s k h = (_, refl, sym (some-injective h))
    where
      some-injective : {a b : CacheKey} → some a ≡ some b → a ≡ b
      some-injective h = cc
  key-some (service_account_principal o sa) s k h = (_, refl, sym (some-injective h))
    where
      some-injective : {a b : CacheKey} → some a ≡ some b → a ≡ b
      some-injective h = cc
  key-some (system_principal o) s k h = cc

  -- The key leaves out the ancestors of a scope: of scopes that carry their own, it determines what
  -- is queried.
  pub key-query_permissions :
      (db : Database) (a b : Principal Ulid) (s t : Scope Ulid) (k : CacheKey)
      → IsPlaced s
      → IsPlaced t
      → key to_string a s ≡ some k
      → key to_string b t ≡ some k
      → query_permissions to_string db a s ≡ query_permissions to_string db b t
  unfolding query_permissions
  key-query_permissions db a b s t k ps pt ks kt =
      let (x, xe, xk) = key-some a s k ks in
      let (y, ye, yk) = key-some b t k kt in
      let same = sym xk ∙ yk in
      rw
        (
          xe,
          ye,
          ap (λ z. z.0) same,
          ap (λ z. z.1) same,
          lineage-determined s t ps pt ((bytes_eq_iff _ _).1 (ap (λ z. z.2) same))
              (ap (λ z. z.3) same),
        )
        refl
