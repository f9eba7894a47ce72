-- ===== src/Authz/Tables/Queries.antt =====
-- crates/jet-authz/src/lib.rs: what the three SQL queries answer, said of the rows.
use jetrun.Prelude.{
  true, arith, lt→ltb, ◌≢◌, map, any, any-In, In-any, keep, Reflects-trans, keep_iff, Result,
  Result-cases, bytes_eq, bytes_eq_refl, ok, err, ℕ, ◌≡◌, refl, sym, ◌∙◌, subst, ◌↔◌, ◌⊎◌, inl, inr,
  Bool, Option, none, some, List, [], ◌∷◌, ltb, Bool-cases, In-map, map-In, In-flat_map,
  flat_map-In, Reflects, &&_iff, ||_iff, any_iff, In, Bytes, codes, bytes_eq_iff,
}
use mathlib.Core.Bool.{false≢true}
use jetrun.Core.Permission.{Permission, as_str, from_str, holds}
use jetrun.Core.Permission.Names.{from_str-as_str, as_str-from_str, holds_iff}
use jetrun.Core.Scope.{ScopeKind, scope_kind_str}
use jetrun.Authz.Tables.{
  Database, Membership, UserRow, ServiceAccountRow, Assignment, RolePermission, TeamMember, TeamRow,
  count_where, join, member_is_active, account_is_active, teams_of, principal_matches, row_matches,
  permission_keys, parse_keys, is_null,
}

-- A user is active in an organization: the membership and the account both are.
abbrev pub IsActiveUser : Database → Bytes → Bytes → Type 0
IsActiveUser db org user =
    (m : Membership) × In m db.memberships
    × ((u : UserRow) × In u db.users
        × ((u.id ≡ m.user_id)
            × ((m.org_id ≡ org)
                × ((m.user_id ≡ user)
                    × ((m.status ≡ codes "active") × (u.status ≡ codes "active"))))))

abbrev pub IsActiveAccount : Database → Bytes → Bytes → Type 0
IsActiveAccount db org id =
    (a : ServiceAccountRow) × In a db.service_accounts
    × ((a.org_id ≡ org) × ((a.id ≡ id) × (a.disabled_at ≡ none)))

abbrev pub IsTeamOf : Database → Bytes → Bytes → Bytes → Type 0
IsTeamOf db user org team =
    (tm : TeamMember) × In tm db.team_members
    × ((t : TeamRow) × In t db.teams
        × (((t.id ≡ tm.team_id) × ((tm.user_id ≡ user) × (t.org_id ≡ org))) × (team ≡ tm.team_id)))

-- An assignment is the principal's own, or that of a team of the organization that the principal
-- belongs to.
abbrev pub IsAssignedTo : Database → Bytes → Bytes → Assignment → Type 0
IsAssignedTo db org id ra =
    (((ra.principal_kind ≡ codes "user") ⊎ (ra.principal_kind ≡ codes "service_account"))
      × (ra.principal_id ≡ id))
    ⊎ ((ra.principal_kind ≡ codes "team") × IsTeamOf db id org ra.principal_id)

-- An assignment stands at one of the levels.
abbrev pub IsAtLevel : List (ScopeKind × Bytes) → Assignment → Type 0
IsAtLevel levels ra =
    (level : ScopeKind × Bytes) × In level levels
    × ((ra.scope_kind ≡ scope_kind_str level.0) × (ra.scope_id ≡ level.1))

-- Some assignment of the organization, to the principal and standing where it must, has a role that
-- includes the permission.
abbrev pub HasGrant : Database → Bytes → Bytes → (Assignment → Type 0) → Permission → Type 0
HasGrant db org id Stands p =
    (ra : Assignment) × In ra db.role_assignments
    × ((rp : RolePermission) × In rp db.role_permissions
        × (((rp.role_id ≡ ra.role_id)
              × ((ra.org_id ≡ org) × (IsAssignedTo db org id ra × Stands ra)))
            × (as_str p ≡ rp.permission_key)))

counted :
    {A : Type 0} {f : A → Bool} {P : A → Type 0} (xs : List A)
    → ((a : A) → Reflects (f a) (P a))
    → Reflects (ltb 0 (count_where f xs)) ((a : A) × In a xs × P a)
unfolding count_where
counted [] r = (λ h. cc, λ w. absurd w.1)
counted {f = f} (x ∷ xs) r = elim (Bool-cases (f x)) [
  | inl e ↦ rw e (λ h. (x, inl refl, (r x).0 e), λ w. lt→ltb _ _ (omega arith))
  | inr e ↦ rw e (
    λ h. let (a, m, k) = (counted xs r).0 h in (a, inr m, k),
    λ w. elim w.1 [
      | inl q ↦ absurd (false≢true (sym e ∙ (subst (λ y. f y ≡ true) q ((r w.0).1 w.2))))
      | inr m ↦ (counted xs r).1 (w.0, m, w.2)
    ],
  )
]

-- A row of a join is a pair of rows.
joined :
    {A B : Type 0} {P : A × B → Type 0} (xs : List A) (ys : List B)
    → ((row : A × B) × In row (join xs ys) × P row)
      ↔ ((a : A) × In a xs × ((b : B) × In b ys × P (a, b)))
unfolding join
joined {P = P} xs ys = (
  λ w.
      let (a, m, k) = In-flat_map _ xs w.0 w.1 in
      let (b, n, e) = In-map _ ys w.0 k in (a, m, (b, n, subst P e w.2)),
  λ w.
      let (a, m, v) = w in
      let (b, n, q) = v in ((a, b), flat_map-In _ xs a _ m (map-In _ ys b n), q),
)

null_iff : (t : Option ℕ) → Reflects (is_null t) (t ≡ none)
null_iff none = (λ h. refl, λ h. refl)
null_iff (some t) = (λ h. cc, λ h. cc)

-- What a projection of the kept rows of a join contains.
selected :
    {A B : Type 0} {C : Type 0} {f : A × B → Bool} {P : A × B → Type 0} (g : A × B → C)
    (xs : List A) (ys : List B) (c : C)
    → ((row : A × B) → Reflects (f row) (P row))
    → In c (map g (keep f (join xs ys)))
      ↔ ((a : A) × In a xs × ((b : B) × In b ys × (P (a, b) × (c ≡ g (a, b)))))
selected {f = f} {P = P} g xs ys c r = (
  λ m.
      let (row, k, e) = In-map g _ c m in
      let (u, v) = (keep_iff _ row r).0 k in
      (joined {P = λ row. P row × (c ≡ g row)} xs ys).0 (row, u, (v, e)),
  λ w.
      let (row, u, v) = (joined {P = λ row. P row × (c ≡ g row)} xs ys).1 w in
      subst (λ c. In c (map g (keep f (join xs ys)))) (sym v.1)
        (map-In g _ row ((keep_iff _ row r).1 (u, v.0))),
)

teams_of_iff :
    (db : Database) (user org team : Bytes)
    → In team (teams_of db user org) ↔ IsTeamOf db user org team
unfolding teams_of
teams_of_iff db user org team =
    selected (λ row. row.0.team_id) db.team_members db.teams team
      (λ row. &&_iff (bytes_eq_iff _ _) (&&_iff (bytes_eq_iff _ _) (bytes_eq_iff _ _)))

any_eq_iff : (x : Bytes) (xs : List Bytes) → Reflects (any (bytes_eq x) xs) (In x xs)
any_eq_iff x xs = (
  λ h. let (a, m, e) = any-In _ xs h in subst (λ a. In a xs) (sym ((bytes_eq_iff x a).0 e)) m,
  λ m. In-any _ xs x m (bytes_eq_refl x),
)

principal_matches_iff :
    (db : Database) (org id : Bytes) (ra : Assignment)
    → Reflects (principal_matches db org id ra) (IsAssignedTo db org id ra)
principal_matches_iff db org id ra =
    ||_iff (&&_iff (||_iff (bytes_eq_iff _ _) (bytes_eq_iff _ _)) (bytes_eq_iff _ _))
      (&&_iff (bytes_eq_iff _ _) (Reflects-trans (any_eq_iff _ _) (teams_of_iff db id org _)))

row_matches_iff :
    (db : Database) (org id : Bytes) (levels : List (ScopeKind × Bytes))
    (row : Assignment × RolePermission)
    → Reflects (row_matches db org id levels row) (
        (row.1.role_id ≡ row.0.role_id)
        × ((row.0.org_id ≡ org) × (IsAssignedTo db org id row.0 × IsAtLevel levels row.0)))
row_matches_iff db org id levels row = &&_iff (bytes_eq_iff _ _) (
    &&_iff (bytes_eq_iff _ _) (
      &&_iff (principal_matches_iff db org id row.0)
        (any_iff levels (λ level. &&_iff (bytes_eq_iff _ _) (bytes_eq_iff _ _)))))

In-parse_keys : (ks : List Bytes) (p : Permission) → In p (parse_keys ks) ↔ In (as_str p) ks
unfolding parse_keys
In-parse_keys [] p = (λ m. m, λ m. m)
In-parse_keys (k ∷ ks) p = elim (Result-cases (from_str k)) [
  | inl (q, e) ↦
      rw (In, e)
        (
          λ m. elim m [
            | inl f ↦ inl (rw f (as_str-from_str k q e))
            | inr n ↦ inr ((In-parse_keys ks p).0 n)
          ],
          λ m. elim m [
            | inl f ↦ inl (ok-injective (sym (from_str-as_str p) ∙ (rw f e)))
            | inr n ↦ inr ((In-parse_keys ks p).1 n)
          ],
        )
  | inr (x, e) ↦
      rw (In, e)
        (
          λ m. inr ((In-parse_keys ks p).0 m),
          λ m. elim m [
            | inl f ↦ absurd (ok≢err {e = x} (sym (from_str-as_str p) ∙ (rw f e)))
            | inr n ↦ (In-parse_keys ks p).1 n
          ],
        )
]
  where
    ok-injective : {a b : Permission} → ◌≡◌ {A = Result Permission Bytes} (ok a) (ok b) → a ≡ b
    ok-injective h = cc

    ok≢err : {a : Permission} {e : Bytes} → ◌≢◌ {A = Result Permission Bytes} (ok a) (err e)
    ok≢err h = cc

-- The permission query answers the permissions that some grant confers.
pub permission_keys_iff :
    (db : Database) (org id : Bytes) (levels : List (ScopeKind × Bytes)) (p : Permission)
    → Reflects
        (holds (parse_keys (permission_keys db org id levels)) p)
        (HasGrant db org id (IsAtLevel levels) p)
unfolding permission_keys
permission_keys_iff db org id levels p =
    Reflects-trans (Reflects-trans (holds_iff _ p) (In-parse_keys _ p)) (
      selected (λ row. row.1.permission_key) db.role_assignments db.role_permissions (as_str p)
        (row_matches_iff db org id levels))

pub IsActiveUser-iff :
    (db : Database) (org user : Bytes)
    → Reflects
        (ltb 0 (count_where (member_is_active org user) (join db.memberships db.users)))
        (IsActiveUser db org user)
IsActiveUser-iff db org user =
    Reflects-trans
      (counted _ (λ row. &&_iff (bytes_eq_iff _ _) (
        &&_iff (bytes_eq_iff _ _)
          (&&_iff (bytes_eq_iff _ _) (&&_iff (bytes_eq_iff _ _) (bytes_eq_iff _ _))))))
      (joined db.memberships db.users)

pub IsActiveAccount-iff :
    (db : Database) (org id : Bytes)
    → Reflects
        (ltb 0 (count_where (account_is_active org id) db.service_accounts))
        (IsActiveAccount db org id)
IsActiveAccount-iff db org id =
    counted _ (λ a. &&_iff (bytes_eq_iff _ _) (&&_iff (bytes_eq_iff _ _) (null_iff a.disabled_at)))
