-- ===== src/Prelude/Stateful.antt =====
-- Fallible code that changes a state: the state is kept on an error, as the effects of the calls are.
use jetrun.Prelude.Outcome.{Result, ok, err}
use jetrun.Prelude.Tests.{if◌then◌else◌}
use mathlib.Core.Bool.{Bool, true, false}

abbrev pub Run : Type 0 → Type 0 → Type 0 → Type 0
Run S E A = S → Result A E × S

unfoldable pub continue : {S E A B : Type 0} → Result A E × S → (A → Run S E B) → Result B E × S
continue (ok a, s) f = f a s
continue (err e, s) f = (err e, s)

infixl 5 ◌>>=◌ ◌>>◌
abbrev pub ◌>>=◌ : {S E A B : Type 0} → Run S E A → (A → Run S E B) → Run S E B
(m >>= f) s = continue (m s) f

abbrev pub ◌>>◌ : {S E A B : Type 0} → Run S E A → Run S E B → Run S E B
(m >> n) s = continue (m s) (λ a. n)

abbrev pub pure : {S E A : Type 0} → A → Run S E A
pure a s = (ok a, s)

abbrev pub fail : {S E A : Type 0} → E → Run S E A
fail e s = (err e, s)

-- A step that reads the state at most, and `?` on it.
abbrev pub of_result : {S E A : Type 0} → Result A E → Run S E A
of_result r s = (r, s)

-- What holds of the value and the state after a success, and of the error and the state after a
-- failure.
abbrev pub Outcome :
    {S E A : Type 0} → (A → S → Type 0) → (E → S → Type 0) → Result A E × S → Type 0
Outcome Q R (ok a, s) = Q a s
Outcome Q R (err e, s) = R e s

-- A triple: from a state with P, the outcome is as Q and R say.
abbrev pub Ends :
    {S E A : Type 0} → (S → Type 0) → (A → S → Type 0) → (E → S → Type 0) → Run S E A → Type 0
Ends P Q R m = (s : _) → P s → Outcome Q R (m s)

-- An invariant, which holds after an error too.
abbrev pub Keeps : {S E A : Type 0} → (S → Type 0) → Run S E A → Type 0
Keeps P m = Ends P (λ a. P) (λ e. P) m

module _ {S E A B : Type 0} (Q : A → S → Type 0) (T : B → S → Type 0) (R : E → S → Type 0) where
  pub continue-Ends :
      (r : Result A E × S) (f : A → Run S E B)
      → Outcome Q R r
      → ((a : A) → Ends (Q a) T R (f a))
      → Outcome T R (continue r f)
  unfolding continue
  continue-Ends (ok a, s) f q h = h a s q
  continue-Ends (err e, s) f q h = q

  pub >>=-Ends :
      {P : S → Type 0} (m : Run S E A) (f : A → Run S E B)
      → Ends P Q R m
      → ((a : A) → Ends (Q a) T R (f a))
      → Ends P T R (m >>= f)
  >>=-Ends m f p h s ps = continue-Ends (m s) f (p s ps) h

-- A property of both branches of a test.
pub if-either :
    {A : Type 0} (P : A → Type 0) (b : Bool) {x y : A} → P x → P y → P (if b then x else y)
if-either P true p q = p
if-either P false p q = q
