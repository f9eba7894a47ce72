-- ===== src/Store/Bootstrap/Exact.antt =====
-- crates/jet-store/src/bootstrap.rs: what `bootstrap` leaves in the tables.
use jetrun.Prelude.{
  ℕ, some, List, [], ◌∷◌, In, ok_or, ok_or-eq_ok, Ensures, >>=-Ensures, Ensures-ok, Bytes, bytes_eq,
  bytes_eq_iff, ◌≡◌, ◌≢◌, refl, sym, subst, ◌∙◌, ap, inl, inr, Bool-cases,
}
use jetrun.Core.Role.{SystemRole, key, permissions}
use jetrun.Store.Bootstrap.{
  RoleRow, Catalog, row_not_found, select_id, insert_role, clear, grant, reconcile, reconcile_all,
}
use jetrun.Store.Bootstrap.Grants.{is_granted, names, Replaced, replace-Ensures, Ensures-map}
use jetrun.Authz.Tables.{RolePermission}
use jetrun.Store.Bootstrap.Rows.{
  Unique, insert_role-select_id, insert_role-Unique, select_id-Unique, key-injective,
}

-- A built-in role has its row, and exactly the permissions of the code.
abbrev pub Exact : Catalog → SystemRole → Type 0
Exact db role =
    (id : Bytes) × (select_id (key role) db.roles ≡ some id)
    × ((k : Bytes) → is_granted db.role_permissions id k ≡ names (permissions role) k)

-- A row of `role_permissions` that is of no built-in role.
abbrev pub IsCustom : Catalog → Bytes → Type 0
IsCustom db id = (role : SystemRole) → select_id (key role) db.roles ≢ some id

-- What reconciling does, from tables whose identifiers are unique.
pub record Advances (db db' : Catalog) : Type 0 where
  pub unique : Unique db'.roles
  pub stable : (k id : Bytes) → select_id k db.roles ≡ some id → select_id k db'.roles ≡ some id
  pub exact : (role : SystemRole) → Exact db role → Exact db' role
  pub custom :
      (id : Bytes)
      → IsCustom db' id
      → (k : Bytes) → is_granted db'.role_permissions id k ≡ is_granted db.role_permissions id k

module _ (fresh : Bytes) (now : ℕ) (role : SystemRole) (db : Catalog)
    (unique : Unique db.roles) where
  abbrev rows : List RoleRow
  rows = insert_role fresh now role db.roles

  abbrev next : List RolePermission → Catalog
  next grants = record db { roles = rows; role_permissions = grants }

  module _ (id : Bytes) (grants : List RolePermission) (found : select_id (key role) rows ≡ some id)
      (replaced : Replaced id (permissions role) db.role_permissions grants) where
    Exact-kept : (r : SystemRole) → Exact db r → Exact (next grants) r
    Exact-kept r (id', h, g) = (id', stays, grants_of)
      where
        stays : select_id (key r) rows ≡ some id'
        stays = insert_role-select_id fresh now role (key r) id' db.roles h

        same_role : id ≡ id' → role ≡ r
        same_role q = key-injective role r (
            select_id-Unique (key role) (key r) id' rows
              (insert_role-Unique fresh now role db.roles unique) (found ∙ ap some q) stays)

        grants_of : (k : Bytes) → is_granted grants id' k ≡ names (permissions r) k
        grants_of k = elim (Bool-cases (bytes_eq id id')) [
          | inl e ↦
              let q = (bytes_eq_iff id id').0 e in
              ap (λ i. is_granted grants i k) (sym q)
              ∙ replaced.0 k
              ∙ ap (λ x. names (permissions x) k) (same_role q)
          | inr e ↦ replaced.1 id' k e ∙ g k
        ]

    custom-kept :
        (id' : Bytes)
        → IsCustom (next grants) id'
        → (k : Bytes) → is_granted grants id' k ≡ is_granted db.role_permissions id' k
    custom-kept id' h k = elim (Bool-cases (bytes_eq id id')) [
      | inl e ↦ absurd (h role (found ∙ ap some ((bytes_eq_iff id id').0 e)))
      | inr e ↦ replaced.1 id' k e
    ]

    advanced : Advances db (next grants) × Exact (next grants) role
    advanced = (
      record {
        unique = insert_role-Unique fresh now role db.roles unique;
        stable = λ k id' h. insert_role-select_id fresh now role k id' db.roles h;
        exact = Exact-kept;
        custom = custom-kept;
      },
      (id, found, replaced.0),
    )

  reconcile-Ensures :
      Ensures (λ db'. Advances db db' × Exact db' role) (reconcile fresh now role db)
  unfolding reconcile
  reconcile-Ensures =
      >>=-Ensures (λ db'. Advances db db' × Exact db' role)
        (ok_or (select_id (key role) rows) row_not_found) _
        λ id e.
          >>=-Ensures (λ db'. Advances db db' × Exact db' role)
            (grant db.permissions id (permissions role) (clear id db.role_permissions)) _
            λ grants g. advanced id grants (ok_or-eq_ok _ _ _ e) (
              Ensures-ok (Replaced id (permissions role) db.role_permissions) _
                (replace-Ensures db.permissions id (permissions role) db.role_permissions) grants g)

Advances-refl : (db : Catalog) → Unique db.roles → Advances db db
Advances-refl db u = record {
  unique = u;
  stable = λ k id h. h;
  exact = λ role h. h;
  custom = λ id h k. refl;
}

Advances-trans : {a b c : Catalog} → Advances a b → Advances b c → Advances a c
Advances-trans p q = record {
  unique = q.unique;
  stable = λ k id h. q.stable k id (p.stable k id h);
  exact = λ role h. q.exact role (p.exact role h);
  custom = λ id h k. q.custom id h k ∙ p.custom id (λ role e. h role (q.stable (key role) id e)) k;
}

abbrev pub AllExact : List SystemRole → Catalog → Catalog → Type 0
AllExact roles db db' = Advances db db' × ((role : SystemRole) → In role roles → Exact db' role)

pub reconcile_all-Ensures :
    (fresh : SystemRole → Bytes) (now : ℕ) (roles : List SystemRole) (db : Catalog)
    → Unique db.roles
    → Ensures (AllExact roles db) (reconcile_all fresh now roles db)
unfolding reconcile_all
reconcile_all-Ensures fresh now [] db u = (Advances-refl db u, λ role m. absurd m)
reconcile_all-Ensures fresh now (role ∷ roles) db u =
    >>=-Ensures (AllExact (role ∷ roles) db) (reconcile (fresh role) now role db) _ λ next e.
      let (a, x) =
        Ensures-ok (λ db'. Advances db db' × Exact db' role) _
          (reconcile-Ensures (fresh role) now role db u) next e in
      Ensures-map (AllExact roles next) (AllExact (role ∷ roles) db)
        (reconcile_all fresh now roles next)
        (λ db' (b, h). (
          Advances-trans a b,
          λ r m. elim m [ inl q ↦ subst (Exact db') (sym q) (b.exact role x) | inr k ↦ h r k ],
        ))
        (reconcile_all-Ensures fresh now roles next a.unique)
