-- ===== src/Prelude/Reflect.antt =====
-- Boolean tests and what they decide: `Reflects b P` says that the test `b` is true exactly when `P`
-- holds. The rules follow the shape of a test.
use mathlib.Core.Path.{◌≡◌, refl}
use mathlib.Core.Logic.{◌⊎◌, inl, inr, ◌↔◌}
use mathlib.Core.Bool.{Bool, true, false, ◌&&◌, ◌||◌}
use mathlib.Core.List.{List}
use jetrun.Prelude.Lists.{In}
use jetrun.Prelude.Members.{any, any-In, In-any, keep, In-keep}

abbrev pub Reflects : Bool → Type 0 → Type 0
Reflects b P = (b ≡ true) ↔ P

pub Reflects-trans : {b : Bool} {P Q : Type 0} → Reflects b P → P ↔ Q → Reflects b Q
Reflects-trans r s = (λ h. s.0 (r.0 h), λ q. r.1 (s.1 q))

pub &&_iff : {a b : Bool} {P Q : Type 0} → Reflects a P → Reflects b Q → Reflects (a && b) (P × Q)
&&_iff {a = true} r s = (λ h. (r.0 refl, s.0 h), λ w. s.1 w.1)
&&_iff {a = false} r s = (λ h. cc, λ w. r.1 w.0)

pub ||_iff : {a b : Bool} {P Q : Type 0} → Reflects a P → Reflects b Q → Reflects (a || b) (P ⊎ Q)
||_iff {a = true} r s = (λ h. inl (r.0 refl), λ w. refl)
||_iff {a = false} r s =
    (λ h. inr (s.0 h), λ w. elim w [ inl p ↦ absurd_of (r.1 p) | inr q ↦ s.1 q ])
  where
    absurd_of : {b : Bool} → false ≡ true → b ≡ true
    absurd_of h = cc

pub any_iff :
    {A : Type 0} {f : A → Bool} {P : A → Type 0} (xs : List A)
    → ((a : A) → Reflects (f a) (P a))
    → Reflects (any f xs) ((a : A) × In a xs × P a)
any_iff xs r = (
  λ h. let (a, m, k) = any-In _ xs h in (a, m, (r a).0 k),
  λ w. let (a, m, k) = w in In-any _ xs a m ((r a).1 k),
)

pub keep_iff :
    {A : Type 0} {f : A → Bool} {P : A → Type 0} (xs : List A) (a : A)
    → ((a : A) → Reflects (f a) (P a))
    → In a (keep f xs) ↔ (In a xs × P a)
keep_iff xs a r = (
  λ m. let (u, v) = (In-keep _ xs a).0 m in (u, (r a).0 v),
  λ w. (In-keep _ xs a).1 (w.0, (r a).1 w.1),
)

pub Reflects-same : {b : Bool} {P Q : Type 0} → Reflects b P → Reflects b Q → P ↔ Q
Reflects-same r s = (λ p. s.0 (r.1 p), λ q. r.0 (s.1 q))

-- One of two cases, each with its consequence.
pub either : {P Q R : Type 0} → P ⊎ Q → (P → R) → (Q → R) → R
either (inl p) f g = f p
either (inr q) f g = g q
