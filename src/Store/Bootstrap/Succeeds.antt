-- ===== src/Store/Bootstrap/Succeeds.antt =====
-- crates/jet-store/src/bootstrap.rs: that `bootstrap` gets through, and with what.
use jetrun.Prelude.{
  ℕ, Bool, true, false, not, ◌&&◌, ◌||◌, some, List, [], ◌∷◌, map, any, any-In, keep, In,
  ok_or-eq_ok, Ensures-ok, Bytes, bytes_eq, bytes_eq_iff, bytes_eq_refl, ok, ◌≡◌, ◌≢◌, refl, sym,
  ◌∙◌, ap, inl, inr, ◌⊎◌, Bool-cases, arith,
}
use mathlib.Core.Bool.{false≢true}
use jetrun.Core.Permission.{Permission, all, as_str}
use jetrun.Core.Role.{
  SystemRole, owner, admin, maintainer, developer, viewer, billing, all_roles, key, permissions,
  for_admin,
}
use jetrun.Authz.Tables.{RolePermission}
use jetrun.Store.Bootstrap.{
  RoleRow, Catalog, is_built_in, select_id, conflicts, insert_role, clear, grant, reconcile,
  reconcile_all, bootstrap, verify_permission_catalog, system_role_id, is_unknown,
}
use jetrun.Store.Bootstrap.Grants.{is_granted, names, clear_lem, grant_row}
use jetrun.Store.Bootstrap.Rows.{Unique, all_roles_complete}
use jetrun.Store.Bootstrap.Exact.{Exact, IsCustom, reconcile_all-Ensures, AllExact}

-- The catalog has every permission of the code.
abbrev pub IsComplete : List Bytes → Type 0
IsComplete catalog = (p : Permission) → any (bytes_eq (as_str p)) catalog ≡ true

unfoldable distinct : List Permission → Bool
distinct [] = true
distinct (p ∷ ps) = not (names ps (as_str p)) && distinct ps

permissions-distinct : (role : SystemRole) → distinct (permissions role) ≡ true
unfolding distinct permissions for_admin any bytes_eq as_str
permissions-distinct owner = refl
permissions-distinct admin = refl
permissions-distinct maintainer = refl
permissions-distinct developer = refl
permissions-distinct viewer = refl
permissions-distinct billing = refl

and-true : (a b : Bool) → (not a && b) ≡ true → (a ≡ false) × (b ≡ true)
and-true a b h = ground arith

grant-succeeds :
    (catalog : List Bytes) (id : Bytes) (ps : List Permission) (granted : List RolePermission)
    → IsComplete catalog
    → distinct ps ≡ true
    → ((k : Bytes) → names ps k ≡ true → is_granted granted id k ≡ false)
    → (grants : List RolePermission) × (grant catalog id ps granted ≡ ok grants)
unfolding grant distinct any
grant-succeeds catalog id [] granted c d h = (granted, refl)
grant-succeeds catalog id (p ∷ ps) granted c d h =
    let (a, b) = and-true (names ps (as_str p)) (distinct ps) d in
    let (grants, e) = grant-succeeds catalog id ps (grant_row id p ∷ granted) c b (later a) in
    (grants, rw (h (as_str p) (rw (bytes_eq_refl (as_str p)) refl), c p) e)
  where
    later :
        names ps (as_str p) ≡ false
        → (k : Bytes) → names ps k ≡ true
        → is_granted (grant_row id p ∷ granted) id k ≡ false
    later a k n = elim (Bool-cases (bytes_eq (as_str p) k)) [
      | inl e ↦ absurd (false≢true (sym a ∙ ap (names ps) ((bytes_eq_iff (as_str p) k).0 e) ∙ n))
      | inr e ↦ rw (e, bytes_eq_refl id) (h k (rw e n))
    ]

-- A row that an identifier names is the role's own.
abbrev pub Usable : (SystemRole → Bytes) → List RoleRow → Type 0
Usable fresh rows =
    (role : SystemRole) (row : RoleRow)
    → In row rows
    → row.id ≡ fresh role
    → is_built_in (key role) row ≡ true

select_id-found :
    (k : Bytes) (rows : List RoleRow) (row : RoleRow)
    → In row rows
    → is_built_in k row ≡ true
    → (id : Bytes) × (select_id k rows ≡ some id)
unfolding select_id
select_id-found k [] row m h = absurd m
select_id-found k (r ∷ rows) row m h = elim (Bool-cases (is_built_in k r)) [
  | inl e ↦ (r.id, rw e refl)
  | inr e ↦ elim m [
    | inl q ↦ absurd (false≢true (sym e ∙ ap (is_built_in k) (sym q) ∙ h))
    | inr l ↦ let (id, g) = select_id-found k rows row l h in (id, rw e g)
  ]
]

or-cases : (a b : Bool) → (a || b) ≡ true → (a ≡ true) ⊎ (b ≡ true)
or-cases true b h = inl refl
or-cases false b h = inr h

module _ (fresh : SystemRole → Bytes) (now : ℕ)
    (injective : (r r' : SystemRole) → fresh r ≡ fresh r' → r ≡ r') where
  insert_role-found :
      (role : SystemRole) (rows : List RoleRow)
      → Usable fresh rows
      → (id : Bytes) × (select_id (key role) (insert_role (fresh role) now role rows) ≡ some id)
  unfolding insert_role select_id
  insert_role-found role rows u = elim (Bool-cases (any (conflicts (fresh role) (key role)) rows)) [
    | inl e ↦
        let (row, m, c) = any-In (conflicts (fresh role) (key role)) rows e in
        let g : is_built_in (key role) row ≡ true =
          elim (or-cases (bytes_eq (fresh role) row.id) _ c) [
            | inl q ↦ u role row m (sym ((bytes_eq_iff (fresh role) row.id).0 q))
            | inr q ↦ q
          ] in
        rw e (select_id-found (key role) rows row m g)
    | inr e ↦ (fresh role, rw (e, bytes_eq_refl (key role)) refl)
  ]

  insert_role-Usable :
      (role : SystemRole) (rows : List RoleRow)
      → Usable fresh rows
      → Usable fresh (insert_role (fresh role) now role rows)
  unfolding insert_role
  insert_role-Usable role rows u =
      elim (Bool-cases (any (conflicts (fresh role) (key role)) rows)) [
        | inl e ↦ rw e u
        | inr e ↦ rw e (λ r row m q. elim m [
          | inl x ↦
              let same : role ≡ r = injective role r (sym (ap (λ (w : RoleRow). w.id) x) ∙ q) in
              ap (is_built_in (key r)) x
              ∙ ap (bytes_eq (key role)) (ap key (sym same))
              ∙ bytes_eq_refl (key role)
          | inr l ↦ u r row l q
        ])
      ]

  reconcile-succeeds :
      (role : SystemRole) (db : Catalog)
      → IsComplete db.permissions
      → Usable fresh db.roles
      → (grants : List RolePermission) × (reconcile (fresh role) now role db
          ≡ ok (record db {
            roles = insert_role (fresh role) now role db.roles;
            role_permissions = grants;
          }))
  unfolding reconcile
  reconcile-succeeds role db c u =
      let (id, f) = insert_role-found role db.roles u in
      let (grants, g) =
        grant-succeeds db.permissions id (permissions role) (clear id db.role_permissions) c
          (permissions-distinct role)
          (λ k n. rw (clear_lem id id k db.role_permissions, bytes_eq_refl id) refl) in
      (grants, rw (f, g) refl)

  reconcile_all-succeeds :
      (roles : List SystemRole) (db : Catalog)
      → IsComplete db.permissions
      → Usable fresh db.roles
      → (db' : Catalog) × (reconcile_all fresh now roles db ≡ ok db')
  unfolding reconcile_all
  reconcile_all-succeeds [] db c u = (db, refl)
  reconcile_all-succeeds (role ∷ roles) db c u =
      let (grants, e) = reconcile-succeeds role db c u in
      let (db', f) =
        reconcile_all-succeeds roles
          (record db {
            roles = insert_role (fresh role) now role db.roles;
            role_permissions = grants;
          })
          c (insert_role-Usable role db.roles u) in
      (db', rw e f)

missing_none :
    (catalog : List Bytes) (ps : List Permission)
    → IsComplete catalog
    → keep (λ k. not (any (bytes_eq k) catalog)) (map as_str ps) ≡ []
unfolding keep
missing_none catalog [] c = refl
missing_none catalog (p ∷ ps) c = rw (c p) (missing_none catalog ps c)

verify_permission_catalog-succeeds :
    (db : Catalog)
    → IsComplete db.permissions
    → verify_permission_catalog db ≡ ok (keep is_unknown db.permissions)
unfolding verify_permission_catalog
verify_permission_catalog-succeeds db c = rw (missing_none db.permissions all c) refl

-- No row has one of the identifiers that are generated.
abbrev pub IsFresh : (SystemRole → Bytes) → List RoleRow → Type 0
IsFresh fresh rows = (role : SystemRole) (row : RoleRow) → In row rows → row.id ≢ fresh role

-- What a startup leaves.
pub record IsBooted (db db' : Catalog) : Type 0 where
  pub exact : (role : SystemRole) → Exact db' role
  pub stable :
      (role : SystemRole) (id : Bytes)
      → system_role_id db role ≡ ok id
      → system_role_id db' role ≡ ok id
  pub custom :
      (id : Bytes)
      → IsCustom db' id
      → (k : Bytes) → is_granted db'.role_permissions id k ≡ is_granted db.role_permissions id k

-- From tables with unique role identifiers and every permission of the code, and with generated
-- identifiers that are fresh and distinct, bootstrap succeeds. Each built-in role then has a row and
-- exactly the permissions that the code gives it, whatever it was granted before; a role that was
-- there keeps its identifier; and what is granted to any other role is unchanged.
pub bootstrap-IsBooted :
    (fresh : SystemRole → Bytes) (now : ℕ) (db : Catalog)
    → Unique db.roles
    → IsComplete db.permissions
    → IsFresh fresh db.roles
    → ((r r' : SystemRole) → fresh r ≡ fresh r' → r ≡ r')
    → (db' : Catalog) × (bootstrap fresh now db ≡ ok db') × IsBooted db db'
unfolding bootstrap system_role_id
bootstrap-IsBooted fresh now db u c f i =
    let (db', e) =
      reconcile_all-succeeds fresh now i all_roles db c (λ role row m q. absurd (f role row m q)) in
    let (a, x) =
      Ensures-ok (AllExact all_roles db) _ (reconcile_all-Ensures fresh now all_roles db u) db' e in
    (
      db',
      rw (verify_permission_catalog-succeeds db c) e,
      record {
        exact = λ role. x role (all_roles_complete role);
        stable = λ role id h. rw (a.stable (key role) id (ok_or-eq_ok _ _ _ h)) refl;
        custom = a.custom;
      },
    )
