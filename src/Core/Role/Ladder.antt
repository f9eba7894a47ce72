-- ===== src/Core/Role/Ladder.antt =====
-- crates/jet-core/src/authz.rs: how the grants of the built-in roles compare.
use jetrun.Prelude.{
  ℕ, ◌<◌, ◌≡◌, refl, ◌↔◌, ◌⊎◌, inl, inr, Bool, true, false, ◌&&◌, Option, none, some, List, [], ◌∷◌,
  arith, Bool-cases, &&-true,
}
use jetrun.Core.Permission.{Permission, holds, perm_eq, discriminant, secret_read, billing_manage}
use jetrun.Core.Permission.Names.{perm_eq_iff}
use jetrun.Core.Role.{SystemRole, permissions, owner, admin, maintainer, developer, viewer, billing}

subset : List Permission → List Permission → Bool
subset [] qs = true
subset (p ∷ ps) qs = holds qs p && subset ps qs

subset-holds :
    (ps qs : List Permission) (p : Permission)
    → subset ps qs ≡ true
    → holds ps p ≡ true
    → holds qs p ≡ true
unfolding subset holds
subset-holds [] qs p s h = cc
subset-holds (q ∷ ps) qs p s h = elim (Bool-cases (perm_eq q p)) [
  | inl e ↦ rw (← (perm_eq_iff q p).0 e) (&&-true _ _ s).0
  | inr e ↦ subset-holds ps qs p (&&-true _ _ s).1 (rw e at h)
]

-- The rank of a role on the ladder from viewer to owner; billing stands beside it.
abbrev pub rank : SystemRole → Option ℕ
rank owner = some 4
rank admin = some 3
rank maintainer = some 2
rank developer = some 1
rank viewer = some 0
rank billing = none

abbrev pub Lower : Option ℕ → Option ℕ → Type 0
Lower (some m) (some n) = m < n
Lower (some m) none = ⊥
Lower none n = ⊥

Lower-subset :
    (a b : SystemRole) → Lower (rank a) (rank b) → subset (permissions a) (permissions b) ≡ true
unfolding subset holds permissions perm_eq discriminant
Lower-subset owner owner h = refl
Lower-subset _ _ h = ground arith

-- A permission that the role has and the role of the next lower rank lacks.
abbrev gain : SystemRole → Permission
gain owner = secret_read
gain admin = Permission.member_invite
gain maintainer = Permission.pipeline_write
gain developer = Permission.pipeline_run
gain _ = Permission.org_read

Lower-gain :
    (a b : SystemRole)
    → Lower (rank a) (rank b)
    → (holds (permissions b) (gain b) ≡ true) × (holds (permissions a) (gain b) ≡ false)
unfolding holds permissions perm_eq discriminant
Lower-gain owner owner h = absurd (omega arith)
Lower-gain _ _ h = ground arith

-- The roles from viewer to owner form a ladder: a role of higher rank holds all that a lower one
-- holds, and at least one permission more.
pub permissions_ladder :
    (a b : SystemRole)
    → Lower (rank a) (rank b)
    → ((p : Permission) → holds (permissions a) p ≡ true → holds (permissions b) p ≡ true)
      × ((p : Permission) × (holds (permissions b) p ≡ true) × (holds (permissions a) p ≡ false))
permissions_ladder a b h = (
  λ p. subset-holds (permissions a) (permissions b) p (Lower-subset a b h),
  (gain b, (Lower-gain a b h).0, (Lower-gain a b h).1),
)

-- Reading secrets is the owner's alone, and billing is managed by the owner and the billing role
-- alone.
pub permissions_reserved :
    (r : SystemRole)
    → ((holds (permissions r) secret_read ≡ true) ↔ (r ≡ owner))
      × ((holds (permissions r) billing_manage ≡ true) ↔ ((r ≡ owner) ⊎ (r ≡ billing)))
unfolding holds permissions perm_eq discriminant
permissions_reserved owner = ((λ _. refl, λ _. refl), (λ _. inl refl, λ _. refl))
permissions_reserved billing = ((λ h. cc, λ h. cc), (λ _. inr refl, λ _. refl))
permissions_reserved _ = ((λ h. cc, λ h. cc), (λ h. cc, λ h. ground arith))
