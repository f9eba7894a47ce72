-- ===== src/Core/Permission/Names.antt =====
-- crates/jet-core/src/authz.rs: the names of permissions are read back as they are written.
use jetrun.Prelude.{
  Bool, false, ◌||◌, arith, bytes_eq_iff, ℕ, zero, suc, ◌≡◌, refl, sym, ◌↔◌, inl, inr, true, Option,
  none, some, List, [], ◌∷◌, ==_iff, Bool-cases, In, ok_or-eq_ok, Bytes, bytes_eq, ok,
}
use mathlib.Core.Bool.{false≢true}
use jetrun.Core.Permission.{Permission, all, as_str, discriminant, perm_eq, find, from_str, holds}

-- Every permission is parsed from its own name.
pub from_str-as_str : (p : Permission) → from_str (as_str p) ≡ ok p
unfolding from_str find as_str bytes_eq
from_str-as_str Permission.org_read = refl
from_str-as_str _ = refl

find-as_str :
    (s : Bytes) (ps : List Permission) (p : Permission) → find s ps ≡ some p → as_str p ≡ s
unfolding find
find-as_str s [] p h = cc
find-as_str s (q ∷ ps) p h = ground (arith, bytes_eq_iff (as_str q) s, find-as_str s ps p)

-- A text is parsed only as the permission that it names.
pub as_str-from_str : (s : Bytes) (p : Permission) → from_str s ≡ ok p → as_str p ≡ s
unfolding from_str
as_str-from_str s p h = find-as_str s all p (ok_or-eq_ok (find s all) s p h)

-- The catalogue is complete: every permission stands in `ALL`, at the place of its discriminant.
abbrev at : ℕ → List Permission → Option Permission
at i [] = none
at zero (p ∷ ps) = some p
at (suc i) (p ∷ ps) = at i ps

pub all-discriminant : (p : Permission) → at (discriminant p) all ≡ some p
unfolding discriminant
all-discriminant Permission.org_read = refl
all-discriminant _ = refl

at-injective : (i : ℕ) (p q : Permission) → at i all ≡ some p → at i all ≡ some q → p ≡ q
at-injective i p q hp hq = cc

pub perm_eq_iff : (p q : Permission) → (perm_eq p q ≡ true) ↔ (p ≡ q)
unfolding perm_eq
perm_eq_iff p q = (
  λ h.
      at-injective (discriminant p) p q (all-discriminant p)
        (rw ((==_iff (discriminant p) (discriminant q)).0 h) (all-discriminant q)),
  λ e. rw e ((==_iff _ _).1 refl),
)

or-true : (b : Bool) → (b || true) ≡ true
or-true true = refl
or-true false = refl

pub holds_iff : (ps : List Permission) (p : Permission) → (holds ps p ≡ true) ↔ In p ps
unfolding holds
holds_iff [] p = (λ h. absurd (false≢true h), λ h. absurd h)
holds_iff (q ∷ ps) p = (
  λ h. elim (Bool-cases (perm_eq q p)) [
    | inl e ↦ inl (sym ((perm_eq_iff q p).0 e))
    | inr e ↦ inr ((holds_iff ps p).0 (rw e at h))
  ],
  λ m. elim m [
    | inl e ↦ rw ((perm_eq_iff q p).1 (sym e))
    | inr m ↦ rw ((holds_iff ps p).1 m) (or-true (perm_eq q p))
  ],
)

pub all_complete : (p : Permission) → holds all p ≡ true
unfolding holds perm_eq discriminant
all_complete Permission.org_read = refl
all_complete _ = refl
