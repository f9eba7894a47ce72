-- ===== src/Authz/Standing.antt =====
-- crates/jet-authz/src/lib.rs: standing is read anew in each call, and comes before the cache.
use jetrun.Prelude.{
  ◌≡◌, refl, ◌⊎◌, inl, inr, Bool, true, false, if◌then◌else◌, Reflects, Result, Bytes, ok, err,
}
use jetrun.Core.Permission.{Permission}
use jetrun.Core.Scope.{Principal, Scope, scope_org, principal_org, is_system}
use jetrun.Core.Scope.Cover.{same_id}
use jetrun.Authz.Tables.{Database}
use jetrun.Authz.Cache.{DecisionCache}
use jetrun.Authz.Decision.{AuthzError, denied, wrong_org, Reads, queried, authorize, on_standing}
use jetrun.Authz.Grants.{IsActive, IsActive-iff}

queried-ok :
    {StoreError : Type 0} (f : Database → Bool) (r : Result Database StoreError)
    → queried f r ≡ ok true
    → (db : Database) × (r ≡ ok db) × (f db ≡ true)
queried-ok {StoreError} f (ok db) h = (db, refl, ok-injective h)
  where
    ok-injective :
        {a b : Bool} → ◌≡◌ {A = Result Bool (AuthzError StoreError)} (ok a) (ok b) → a ≡ b
    ok-injective h = cc
queried-ok f (err e) h = cc

module _ {Ulid StoreError : Type 0} (to_string : Ulid → Bytes) (ulid_eq : Ulid → Ulid → Bool)
    (c : DecisionCache) (principal : Principal Ulid) (p : Permission) (scope : Scope Ulid)
    (reads : Reads StoreError) where
  stood :
      (system same : Bool) (r : Result Bool (AuthzError StoreError))
      → (if system
          then (ok tt, c)
          else if same
          then on_standing to_string ulid_eq c principal p scope reads r
          else (err (denied wrong_org), c)).0
        ≡ ok tt
      → (system ≡ true) ⊎ ((same ≡ true) × (r ≡ ok true))
  stood true same r h = inl refl
  stood false true (ok true) h = inr (refl, refl)
  stood false true (ok false) h = cc
  stood false true (err e) h = cc
  stood false false r h = cc

  -- Whatever the cache holds and whatever the grants say, when the equality test of ULIDs decides their
  -- equality: an action is authorized only for the
  -- system, or when the scope is of the principal's organization and this call's own query of its
  -- standing found it active there.
  pub authorize-standing :
      ((a b : Ulid) → Reflects (ulid_eq a b) (a ≡ b))
      → (authorize to_string ulid_eq c principal p scope reads).0 ≡ ok tt
      → (is_system principal ≡ true)
        ⊎ ((scope_org scope ≡ principal_org principal)
            × ((db : Database) × (reads.standing ≡ ok db) × IsActive to_string db principal))
  unfolding authorize
  authorize-standing same h = elim (stood _ _ _ h) [
    | inl e ↦ inl e
    | inr (e, r) ↦
        let (db, k, f) = queried-ok _ reads.standing r in
        inr (same_id _ _ ((same _ _).0 e), (db, k, (IsActive-iff to_string db principal).0 f))
  ]
