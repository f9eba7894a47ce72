-- ===== src/Store/Bootstrap/Grants.antt =====
-- crates/jet-store/src/bootstrap.rs: what clearing and granting do to the rows of a role.
use jetrun.Prelude.{
  Bool, true, false, not, ◌&&◌, ◌||◌, List, [], ◌∷◌, any, keep, Result, Ensures, refuse_if-Ensures,
  Bytes, bytes_eq, bytes_eq_iff, bytes_eq_refl, ok, err, ◌≡◌, refl, sym, ◌∙◌, ap, inl, inr,
  Bool-cases, arith,
}
use jetrun.Core.Permission.{Permission, as_str}
use jetrun.Authz.Tables.{RolePermission}
use jetrun.Store.Bootstrap.{same_grant, clear, grant}

-- Whether the rows grant a permission to a role.
abbrev pub is_granted : List RolePermission → Bytes → Bytes → Bool
is_granted rows id k = any (same_grant id k) rows

-- Whether permissions contain one of this name.
abbrev pub names : List Permission → Bytes → Bool
names ps k = any (λ p. bytes_eq (as_str p) k) ps

bytes_eq_sym : (a b : Bytes) → bytes_eq a b ≡ bytes_eq b a
bytes_eq_sym a b = ground (arith, bytes_eq_iff a b, bytes_eq_iff b a)

dropped : (e q a : Bool) → (not e && a) ≡ (not e && (e && q || a))
dropped true q a = refl
dropped false q a = refl

held :
    (s e q a : Bool) → (e ≡ true → s ≡ false) → (s && q || (not e && a)) ≡ (not e && (s && q || a))
held true true q a h = cc (h refl)
held false true q a h = refl
held s false q a h = refl

pub clear_lem :
    (id id' k : Bytes) (rows : List RolePermission)
    → is_granted (clear id rows) id' k ≡ (not (bytes_eq id id') && is_granted rows id' k)
unfolding clear keep any
clear_lem id id' k [] = none_granted (bytes_eq id id')
  where
    none_granted : (e : Bool) → false ≡ (not e && false)
    none_granted true = refl
    none_granted false = refl
clear_lem id id' k (row ∷ rows) = elim (Bool-cases (bytes_eq row.role_id id)) [
  | inl e ↦
      let h : bytes_eq row.role_id id' ≡ bytes_eq id id' =
        ap (λ x. bytes_eq x id') ((bytes_eq_iff row.role_id id).0 e) in
      rw (e, h, clear_lem id id' k rows)
        (dropped (bytes_eq id id') (bytes_eq row.permission_key k) (is_granted rows id' k))
  | inr e ↦
      rw (e, clear_lem id id' k rows)
        (held (bytes_eq row.role_id id') (bytes_eq id id') (bytes_eq row.permission_key k)
          (is_granted rows id' k)
          (λ h. ap (bytes_eq row.role_id) (sym ((bytes_eq_iff id id').0 h)) ∙ e))
]

pub Ensures-map :
    {A E : Type 0} (P Q : A → Type 0) (r : Result A E)
    → ((a : A) → P a → Q a)
    → Ensures P r
    → Ensures Q r
Ensures-map P Q (ok a) f h = f a h
Ensures-map P Q (err e) f h = tt

moved : (e q r a : Bool) → (e && q || (e && r || a)) ≡ (e && (r || q) || a)
moved true true true a = refl
moved true true false a = refl
moved true false true a = refl
moved true false false a = refl
moved false q r a = refl

abbrev pub grant_row : Bytes → Permission → RolePermission
grant_row id p = record { role_id = id; permission_key = as_str p }

-- What inserting the permissions comes to: the role has these too, and no other role has more.
abbrev Added : Bytes → List Permission → List RolePermission → List RolePermission → Type 0
Added id ps rows rows' =
    (id' k : Bytes)
    → is_granted rows' id' k ≡ ((bytes_eq id id' && names ps k) || is_granted rows id' k)

grant-Ensures :
    (catalog : List Bytes) (id : Bytes) (ps : List Permission) (rows : List RolePermission)
    → Ensures (Added id ps rows) (grant catalog id ps rows)
unfolding grant any
grant-Ensures catalog id [] rows = λ id' k. nothing_added (bytes_eq id id') (is_granted rows id' k)
  where
    nothing_added : (e a : Bool) → a ≡ (e && false || a)
    nothing_added true a = refl
    nothing_added false a = refl
grant-Ensures catalog id (p ∷ ps) rows =
    refuse_if-Ensures (Added id (p ∷ ps) rows) (any (same_grant id (as_str p)) rows) _ _ λ _.
      refuse_if-Ensures (Added id (p ∷ ps) rows) (not (any (bytes_eq (as_str p)) catalog)) _ _ λ _.
        Ensures-map (Added id ps (grant_row id p ∷ rows)) (Added id (p ∷ ps) rows)
          (grant catalog id ps (grant_row id p ∷ rows))
          (λ rows' h id' k.
            h id' k
            ∙ moved (bytes_eq id id') (names ps k) (bytes_eq (as_str p) k) (is_granted rows id' k))
          (grant-Ensures catalog id ps (grant_row id p ∷ rows))

-- Exactly these permissions, and those of every other role as before.
abbrev pub Replaced : Bytes → List Permission → List RolePermission → List RolePermission → Type 0
Replaced id ps rows rows' =
    ((k : Bytes) → is_granted rows' id k ≡ names ps k)
    × ((id' k : Bytes) → bytes_eq id id' ≡ false → is_granted rows' id' k ≡ is_granted rows id' k)

pub replace-Ensures :
    (catalog : List Bytes) (id : Bytes) (ps : List Permission) (rows : List RolePermission)
    → Ensures (Replaced id ps rows) (grant catalog id ps (clear id rows))
replace-Ensures catalog id ps rows =
    Ensures-map (Added id ps (clear id rows)) (Replaced id ps rows) _
      (λ rows' h. (
        λ k. h id k ∙ rw (clear_lem id id k rows, bytes_eq_refl id) (only (names ps k)),
        λ id' k e. h id' k ∙ rw (clear_lem id id' k rows, e) refl,
      ))
      (grant-Ensures catalog id ps (clear id rows))
  where
    only : (b : Bool) → (b || false) ≡ b
    only true = refl
    only false = refl
