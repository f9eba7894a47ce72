-- ===== src/Store/Bootstrap/Rows.antt =====
-- crates/jet-store/src/bootstrap.rs: the rows of the roles, and what inserting one does to them.
use jetrun.Prelude.{
  ℕ, Bool, true, false, ◌&&◌, ◌||◌, some, List, [], ◌∷◌, if◌then◌else◌, any, In, In-any, Bytes,
  bytes_eq, bytes_eq_iff, ◌≡◌, ◌≢◌, refl, sym, ◌∙◌, ap, inl, inr, Bool-cases, arith,
}
use mathlib.Core.Bool.{false≢true}
use jetrun.Core.Role.{
  SystemRole, owner, admin, maintainer, developer, viewer, billing, all_roles, key,
}
use jetrun.Store.Bootstrap.{RoleRow, is_none, is_built_in, select_id, conflicts, insert_role}

-- The primary key of `roles`: rows with one identifier have one key.
abbrev pub Unique : List RoleRow → Type 0
Unique rows = (a b : RoleRow) → In a rows → In b rows → a.id ≡ b.id → a.key ≡ b.key

select_id-In :
    (k id : Bytes) (rows : List RoleRow)
    → select_id k rows ≡ some id
    → (row : RoleRow) × In row rows × (row.id ≡ id) × (is_built_in k row ≡ true)
unfolding select_id
select_id-In k id [] h = cc
select_id-In k id (row ∷ rows) h = elim (Bool-cases (is_built_in k row)) [
  | inl e ↦ (row, inl refl, some-injective (rw e at h), e)
  | inr e ↦ let (r, m, p, q) = select_id-In k id rows (rw e at h) in (r, inr m, p, q)
]
  where
    some-injective : {a b : Bytes} → some a ≡ some b → a ≡ b
    some-injective p = cc

or-right : (a b : Bool) → b ≡ true → (a || b) ≡ true
or-right a b h = ground arith

and-right : (a b : Bool) → (a && b) ≡ true → b ≡ true
and-right a b h = ground arith

-- A built-in role keeps another row with its key out.
select_id-any :
    (fresh k id : Bytes) (rows : List RoleRow)
    → select_id k rows ≡ some id
    → any (conflicts fresh k) rows ≡ true
select_id-any fresh k id rows h =
    let (row, m, p, q) = select_id-In k id rows h in
    In-any (conflicts fresh k) rows row m (or-right (bytes_eq fresh row.id) (is_built_in k row) q)

pub insert_role-select_id :
    (fresh : Bytes) (now : ℕ) (role : SystemRole) (k id : Bytes) (rows : List RoleRow)
    → select_id k rows ≡ some id
    → select_id k (insert_role fresh now role rows) ≡ some id
unfolding insert_role select_id
insert_role-select_id fresh now role k id rows h =
    elim (Bool-cases (any (conflicts fresh (key role)) rows)) [
      | inl e ↦ rw e h
      | inr e ↦ elim (Bool-cases (bytes_eq (key role) k)) [
        | inl q ↦
            let g : select_id (key role) rows ≡ some id = rw ((bytes_eq_iff (key role) k).0 q) h in
            absurd (false≢true (sym e ∙ select_id-any fresh (key role) id rows g))
        | inr q ↦ rw (e, q) h
      ]
    ]

or-left : (a b : Bool) → a ≡ true → (a || b) ≡ true
or-left a b h = ground arith

-- A row that is inserted has an identifier of its own.
fresh-apart :
    (fresh k : Bytes) (rows : List RoleRow) (row : RoleRow)
    → any (conflicts fresh k) rows ≡ false
    → In row rows
    → fresh ≢ row.id
fresh-apart fresh k rows row e m q = false≢true (
    sym e
    ∙ In-any (conflicts fresh k) rows row m
        (or-left (bytes_eq fresh row.id) (is_built_in k row) ((bytes_eq_iff fresh row.id).1 q)))

pub insert_role-Unique :
    (fresh : Bytes) (now : ℕ) (role : SystemRole) (rows : List RoleRow)
    → Unique rows
    → Unique (insert_role fresh now role rows)
unfolding insert_role
insert_role-Unique fresh now role rows u =
    elim (Bool-cases (any (conflicts fresh (key role)) rows)) [
      | inl e ↦ rw e u
      | inr e ↦ rw e (λ a b ma mb q. elim ma [
        | inl x ↦ elim mb [
          | inl y ↦ ap (λ (r : RoleRow). r.key) (x ∙ sym y)
          | inr m ↦
              absurd
                (fresh-apart fresh (key role) rows b e m (sym (ap (λ (r : RoleRow). r.id) x) ∙ q))
        ]
        | inr l ↦ elim mb [
          | inl y ↦
              absurd (
                fresh-apart fresh (key role) rows a e l
                  (sym (ap (λ (r : RoleRow). r.id) y) ∙ sym q))
          | inr m ↦ u a b l m q
        ]
      ])
    ]

pub select_id-Unique :
    (k k' id : Bytes) (rows : List RoleRow)
    → Unique rows
    → select_id k rows ≡ some id
    → select_id k' rows ≡ some id
    → k ≡ k'
select_id-Unique k k' id rows u h h' =
    let (a, ma, pa, qa) = select_id-In k id rows h in
    let (b, mb, pb, qb) = select_id-In k' id rows h' in
    sym ((bytes_eq_iff a.key k).0 (and-right (is_none a.org_id) (bytes_eq a.key k) qa))
    ∙ u a b ma mb (pa ∙ sym pb)
    ∙ (bytes_eq_iff b.key k').0 (and-right (is_none b.org_id) (bytes_eq b.key k') qb)

-- The role that a key names.
unfoldable role_of : Bytes → SystemRole
role_of k =
    if bytes_eq k (key owner)
    then owner
    else if bytes_eq k (key admin)
    then admin
    else if bytes_eq k (key maintainer)
    then maintainer
    else if bytes_eq k (key developer)
    then developer
    else if bytes_eq k (key viewer)
    then viewer
    else billing

role_of-key : (role : SystemRole) → role_of (key role) ≡ role
unfolding role_of key bytes_eq
role_of-key owner = refl
role_of-key admin = refl
role_of-key maintainer = refl
role_of-key developer = refl
role_of-key viewer = refl
role_of-key billing = refl

pub key-injective : (r r' : SystemRole) → key r ≡ key r' → r ≡ r'
key-injective r r' h = sym (role_of-key r) ∙ ap role_of h ∙ role_of-key r'

pub all_roles_complete : (role : SystemRole) → In role all_roles
all_roles_complete owner = inl refl
all_roles_complete admin = inr (inl refl)
all_roles_complete maintainer = inr (inr (inl refl))
all_roles_complete developer = inr (inr (inr (inl refl)))
all_roles_complete viewer = inr (inr (inr (inr (inl refl))))
all_roles_complete billing = inr (inr (inr (inr (inr (inl refl)))))
