-- ===== src/Prelude/Outcome.antt =====
-- Rust's `Result`, its `?` as the bind of a `do` block, and the inversion of a successful bind.
use mathlib.Core.Path.{◌≡◌, refl, subst}
use mathlib.Core.Bool.{Bool, true, false}
use mathlib.Core.Option.{Option, none, some}
use mathlib.Core.Logic.{◌⊎◌, inl, inr}

-- Rust's order of constructors and of parameters.
pub data Result {ℓ κ} (T : Type ℓ) (E : Type κ) : Type (ℓ ⊔ κ) where
  ok : T → Result T E
  err : E → Result T E

-- An early `return Err(e)` under a test.
abbrev pub refuse_if {ℓ} : {E : Type ℓ} → Bool → E → Result (Unit {0}) E
refuse_if false e = ok tt
refuse_if true e = err e

-- `Option::ok_or`
abbrev pub ok_or {ℓ κ} : {T : Type ℓ} {E : Type κ} → Option T → E → Result T E
ok_or none e = err e
ok_or (some found) e = ok found

pub ok_or-eq_ok {ℓ κ} :
    {T : Type ℓ} {E : Type κ} (o : Option T) (e : E) (found : T)
    → ok_or o e ≡ ok found
    → o ≡ some found
ok_or-eq_ok none e found h = cc
ok_or-eq_ok (some t) e found h = cc

-- `?` on a step that has a value, and on one that only may fail.
infixl 5 ◌>>=◌ ◌>>◌
abbrev pub ◌>>=◌ {ℓ κ μ} :
    {E : Type μ} {T : Type ℓ} {V : Type κ} → Result T E → (T → Result V E) → Result V E
err failure >>= next = err failure
ok value >>= next = next value

abbrev pub ◌>>◌ {κ μ} : {E : Type μ} {V : Type κ} → Result (Unit {0}) E → Result V E → Result V E
step >> rest = step >>= λ done. rest

module _ {ℓ κ μ} {E : Type μ} {T : Type ℓ} {V : Type κ} where
  -- What came before a success succeeded too.
  pub >>=-eq-ok :
      (step : Result T E) (next : T → Result V E) {v : V}
      → (step >>= next) ≡ ok v
      → (value : T) × (step ≡ ok value) × (next value ≡ ok v)
  >>=-eq-ok (err failure) next h = cc
  >>=-eq-ok (ok value) next h = (value, refl, h)

pub Result-cases {ℓ κ} :
    {A : Type ℓ} {E : Type κ} (r : Result A E) → ((a : A) × (r ≡ ok a)) ⊎ ((e : E) × (r ≡ err e))
Result-cases (ok a) = inl (a, refl)
Result-cases (err e) = inr (e, refl)

-- What holds of the value of a computation, if it succeeds.
abbrev pub Ensures {ℓ κ μ} : {A : Type ℓ} {E : Type κ} → (A → Type μ) → Result A E → Type μ
Ensures P (ok a) = P a
Ensures P (err e) = Unit

module _ {ℓ κ μ ν} {A : Type ℓ} {B : Type κ} {E : Type μ} (Q : B → Type ν) where
  -- The rule for `?`: the rest may use that the first step succeeded.
  pub >>=-Ensures :
      (m : Result A E) (f : A → Result B E)
      → ((a : A) → m ≡ ok a → Ensures Q (f a))
      → Ensures Q (m >>= f)
  >>=-Ensures (ok a) f h = h a refl
  >>=-Ensures (err e) f h = tt

module _ {ℓ κ ν} {B : Type ℓ} {E : Type κ} (Q : B → Type ν) where
  -- The rule for a guard: behind it the test has failed.
  pub refuse_if-Ensures :
      (b : Bool) (e : E) (m : Result B E)
      → (b ≡ false → Ensures Q m)
      → Ensures Q (refuse_if b e >> m)
  refuse_if-Ensures true e m h = tt
  refuse_if-Ensures false e m h = h refl

  pub Ensures-ok : (m : Result B E) → Ensures Q m → (b : B) → m ≡ ok b → Q b
  Ensures-ok (ok a) h b e = subst Q (ok-injective e) h
    where
      ok-injective : ◌≡◌ {A = Result B E} (ok a) (ok b) → a ≡ b
      ok-injective p = cc
  Ensures-ok (err x) h b e = cc
