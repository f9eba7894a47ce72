-- ===== src/Authz/Verdict.antt =====
-- crates/jet-authz/src/lib.rs: what `authorize` answers, and that `effective_permissions` answers the
-- same question for every permission at once.
use jetrun.Authz.Grants.{IsAllowed, IsActive-iff, IsGranted-iff}
use jetrun.Prelude.{
  ap, Reflects-trans, &&_iff, ||_iff, Reflects-same, sym, subst, inl, inr, false, ◌&&◌, ◌||◌, none,
  some, [], if◌then◌else◌, Bool-cases, Reflects, Result, err, ◌≡◌, refl, ◌↔◌, Bool, true, List,
  Bytes, ok,
}
use jetrun.Core.Scope.Cover.{same_id}
use jetrun.Core.Permission.{Permission, holds, all}
use jetrun.Core.Permission.Names.{all_complete}
use jetrun.Core.Scope.{
  Principal, Scope, scope_org, principal_org, is_system, user_principal, service_account_principal,
  system_principal, id_string,
}
use jetrun.Authz.Tables.{Database, is_active_principal, query_permissions}
use jetrun.Authz.Cache.{CacheKey, DecisionCache, probe, key}
use jetrun.Authz.Decision.{
  AuthzError, denied, Reads, queried, id_eq, permissions, authorize, effective_permissions, decided,
  on_standing, effective_on_standing, wrong_org,
}
use mathlib.Core.Bool.{false≢true}

-- A pair of outcomes says the same of a permission.
abbrev Agrees :
    {StoreError : Type 0}
    → Permission
    → Result (Unit {0}) (AuthzError StoreError) × DecisionCache
    → Result (List Permission) (AuthzError StoreError) × DecisionCache
    → Type 0
Agrees p (r, c) (q, d) =
    ((r ≡ ok tt) ↔ ((ps : List Permission) × (q ≡ ok ps) × (holds ps p ≡ true))) × (c ≡ d)

none_held :
    {StoreError : Type 0} (p : Permission)
    → ((ps : List Permission) × (◌≡◌ {A = Result (List Permission) (AuthzError StoreError)}
          (ok [])
          (ok ps))
        × (holds ps p ≡ true))
    → ⊥
unfolding holds
none_held {StoreError} p (ps, e, h) =
    absurd (false≢true (subst (λ ps. holds ps p ≡ true) (sym (ok-injective e)) h))
  where
    ok-injective :
        {a b : List Permission}
        → ◌≡◌ {A = Result (List Permission) (AuthzError StoreError)} (ok a) (ok b)
        → a ≡ b
    ok-injective h = cc

module _ {Ulid StoreError : Type 0} (to_string : Ulid → Bytes) (ulid_eq : Ulid → Ulid → Bool) where
  decided_iff :
      (p : Permission) (scope : Scope Ulid) (r : Result (List Permission) (AuthzError StoreError))
      → (decided to_string ulid_eq p scope r ≡ ok tt)
        ↔ ((ps : List Permission) × (r ≡ ok ps) × (holds ps p ≡ true))
  decided_iff p scope (err e) = (λ h. cc, λ w. cc)
  decided_iff p scope (ok held) = elim (Bool-cases (holds held p)) [
    | inl e ↦ rw e (λ h. (held, refl, e), λ w. refl)
    | inr e ↦ rw e (λ h. cc, λ w. cc)
  ]

  module _ (c : DecisionCache) (principal : Principal Ulid) (p : Permission) (scope : Scope Ulid)
      (reads : Reads StoreError) where
    standing-Agrees :
        (r : Result Bool (AuthzError StoreError))
        → Agrees p
            (on_standing to_string ulid_eq c principal p scope reads r)
            (effective_on_standing to_string ulid_eq c principal scope reads r)
    standing-Agrees (err e) = ((λ h. cc, λ w. cc), refl)
    standing-Agrees (ok false) = ((λ h. cc, λ w. absurd (none_held p w)), refl)
    standing-Agrees (ok true) = (decided_iff p scope _, refl)

    case-Agrees :
        (system same : Bool) (r : Result Bool (AuthzError StoreError))
        → Agrees p
            (if system
              then (ok tt, c)
              else if same
              then on_standing to_string ulid_eq c principal p scope reads r
              else (err (denied wrong_org), c))
            (if system
              then (ok all, c)
              else if same
              then effective_on_standing to_string ulid_eq c principal scope reads r
              else (ok [], c))
    case-Agrees true same r = ((λ h. (all, refl, all_complete p), λ w. refl), refl)
    case-Agrees false true r = standing-Agrees r
    case-Agrees false false r = ((λ h. cc, λ w. absurd (none_held p w)), refl)

    -- `authorize` and `effective_permissions` ask one question: from the same cache and the same
    -- queries, a permission is authorized exactly when it is among the effective permissions, and
    -- both leave the same cache.
    pub authorize-effective_permissions :
        (((authorize to_string ulid_eq c principal p scope reads).0 ≡ ok tt) ↔ (
          (ps : List Permission) × ((effective_permissions to_string ulid_eq c principal scope
              reads).0
            ≡ ok ps)
          × (holds ps p ≡ true)))
        × ((authorize to_string ulid_eq c principal p scope reads).1
            ≡ (effective_permissions to_string ulid_eq c principal scope reads).1)
    unfolding authorize effective_permissions
    authorize-effective_permissions =
        case-Agrees (is_system principal)
          (id_eq ulid_eq (scope_org scope) (principal_org principal))
          (queried (λ db. is_active_principal to_string db principal) reads.standing)

    verdict :
        (system same active : Bool) (r : Result Bool (AuthzError StoreError)) (ps : List Permission)
        → r ≡ ok active
        → (permissions to_string c principal scope reads).0 ≡ ok ps
        → Reflects (system || (same && (active && holds ps p))) (
            (if system
              then (ok tt, c)
              else if same
              then on_standing to_string ulid_eq c principal p scope reads r
              else (err (denied wrong_org), c)).0
            ≡ ok tt)
    verdict true same active r ps e h = (λ k. refl, λ k. refl)
    verdict false false active r ps e h = (λ k. cc, λ k. cc)
    verdict false true false r ps e h = rw e (λ k. cc, λ k. cc)
    verdict false true true r ps e h = elim (Bool-cases (holds ps p)) [
      | inl k ↦ rw (e, h, k) (λ k. refl, λ k. refl)
      | inr k ↦ rw (e, h, k) (λ k. cc, λ k. cc)
    ]

    -- A look-up that the cache does not answer is the query.
    missed :
        (q : Principal Ulid) (db : Database)
        → ((k : CacheKey) → key to_string q scope ≡ some k → probe c k reads.looked_at ≡ none)
        → reads.grants ≡ ok db
        → (permissions to_string c q scope reads).0 ≡ ok (query_permissions to_string db q scope)
    unfolding permissions key query_permissions id_string principal_org
    missed (system_principal o) db miss h = refl
    missed (user_principal o u) db miss h = rw (miss _ refl, h) refl
    missed (service_account_principal o sa) db miss h = rw (miss _ refl, h) refl

    module _ (same : (a b : Ulid) → Reflects (ulid_eq a b) (a ≡ b)) where
      -- The decision, when the look-up answers what the query would.
      pub authorize-permissions :
          (db db' : Database)
          → reads.standing ≡ ok db
          → (permissions to_string c principal scope reads).0
            ≡ ok (query_permissions to_string db' principal scope)
          → ((authorize to_string ulid_eq c principal p scope reads).0 ≡ ok tt)
            ↔ IsAllowed to_string db db' principal scope p
      unfolding authorize
      authorize-permissions db db' h held =
          Reflects-same
            (verdict (is_system principal)
              (id_eq ulid_eq (scope_org scope) (principal_org principal))
              (is_active_principal to_string db principal)
              (queried (λ db. is_active_principal to_string db principal) reads.standing)
              (query_permissions to_string db' principal scope)
              (ap (queried (λ db. is_active_principal to_string db principal)) h) held)
            (||_iff (λ k. k, λ k. k)
              (&&_iff
                (Reflects-trans (same (scope_org scope).ulid (principal_org principal).ulid)
                  (λ e. same_id _ _ e, λ e. ap (λ x. x.ulid) e))
                (&&_iff (IsActive-iff to_string db principal)
                  (IsGranted-iff to_string db' principal scope p))))

      -- When the equality test of ULIDs decides their equality: what the cache does not answer is decided
      -- by the rows alone. With both queries answered, the
      -- action is authorized exactly when the principal is the system, or the scope is of its
      -- organization, it is an active member there, and some assignment, its own or a team's,
      -- at the scope or above it has a role with the permission.
      pub authorize_iff :
          (db db' : Database)
          → ((k : CacheKey)
              → key to_string principal scope ≡ some k
              → probe c k reads.looked_at ≡ none)
          → reads.standing ≡ ok db
          → reads.grants ≡ ok db'
          → ((authorize to_string ulid_eq c principal p scope reads).0 ≡ ok tt)
            ↔ IsAllowed to_string db db' principal scope p
      authorize_iff db db' miss h h' = authorize-permissions db db' h (missed principal db' miss h')
