-- ===== src/Prelude/Maps.antt =====
-- A hash map from texts, as the list of its entries, and texts cut at a separator.
use mathlib.Core.Path.{sym, ap, subst, ◌∙◌}
use mathlib.Core.Logic.{inl, inr}
use mathlib.Core.List.{◌++◌}
use mathlib.Core.Bool.{false, false≢true}
use jetrun.Prelude.Tests.{Bool-cases, ==_iff}
use jetrun.Prelude.Lists.{In}
use Prim.Native.Nat.{ℕ, zero, suc}
use mathlib.Core.Path.{◌≡◌, refl}
use mathlib.Core.Logic.{inl, inr}
use mathlib.Core.Bool.{false}
use mathlib.Core.Option.{Option, none, some}
use mathlib.Core.List.{List, [], ◌∷◌}
use native.Mathlib.Omega.{arith}
use jetrun.Prelude.Tests.{if◌then◌else◌, ◌==◌, Bool-cases}
use jetrun.Prelude.Octets.{Bytes, bytes_eq, bytes_eq_iff}

module _ {V : Type 0} where
  unfoldable pub get_key : Bytes → List (Bytes × V) → Option V
  get_key key [] = none
  get_key key ((k, v) ∷ entries) = if bytes_eq k key then some v else get_key key entries

  unfoldable pub insert_key : Bytes → V → List (Bytes × V) → List (Bytes × V)
  insert_key key v [] = (key, v) ∷ []
  insert_key key v ((k, w) ∷ entries) =
      if bytes_eq k key then (key, v) ∷ entries else (k, w) ∷ insert_key key v entries

  pub get_key-insert_key :
      (k j : Bytes) (v : V) (entries : List (Bytes × V))
      → get_key j (insert_key k v entries) ≡ (if bytes_eq k j then some v else get_key j entries)
  unfolding get_key insert_key
  get_key-insert_key k j v [] = refl
  get_key-insert_key k j v ((i, w) ∷ entries) = ground (
    arith,
    bytes_eq_iff k j,
    bytes_eq_iff i k,
    bytes_eq_iff i j,
    get_key-insert_key k j v entries,
  )

abbrev prepend : ℕ → Option (Bytes × Bytes) → Option (Bytes × Bytes)
prepend b none = none
prepend b (some (first, rest)) = some (b ∷ first, rest)

-- `str::split_once`
unfoldable pub split_once : ℕ → Bytes → Option (Bytes × Bytes)
split_once separator [] = none
split_once separator (b ∷ s) =
    if b == separator then some ([], s) else prepend b (split_once separator s)

-- `str::splitn`: at most so many pieces, the last of them uncut.
unfoldable pub splitn : ℕ → ℕ → Bytes → List Bytes
splitn zero separator s = []
splitn (suc zero) separator s = s ∷ []
splitn (suc (suc n)) separator s = elim (split_once separator s) [
  | none ↦ s ∷ []
  | some (first, rest) ↦ first ∷ splitn (suc n) separator rest
]

-- A text before its first separator, and what stands after it.
pub split_once-append :
    (c : ℕ) (s rest : Bytes) → ¬ In c s → split_once c (s ++ c ∷ rest) ≡ some (s, rest)
unfolding split_once
split_once-append c [] rest n = rw ((==_iff c c).1 refl) refl
split_once-append c (b ∷ s) rest n = elim (Bool-cases (b == c)) [
  | inl p ↦ absurd (n (inl (sym ((==_iff b c).0 p))))
  | inr p ↦ rw (p, split_once-append c s rest (λ m. n (inr m))) refl
]

abbrev pub IsSplit : ℕ → Bytes → Option (Bytes × Bytes) → Type 0
IsSplit c s none = Unit
IsSplit c s (some (before, rest)) = (s ≡ before ++ c ∷ rest) × ¬ In c before

prepend-IsSplit :
    (c b : ℕ) (s : Bytes) (o : Option (Bytes × Bytes))
    → (b == c) ≡ false
    → IsSplit c s o
    → IsSplit c (b ∷ s) (prepend b o)
prepend-IsSplit c b s none p h = tt
prepend-IsSplit c b s (some (before, rest)) p (e, n) = (
  ap (◌∷◌ b) e,
  λ m. elim m [ inl q ↦ false≢true (sym p ∙ (==_iff b c).1 (sym q)) | inr k ↦ n k ],
)

pub split_once-IsSplit : (c : ℕ) (s : Bytes) → IsSplit c s (split_once c s)
unfolding split_once
split_once-IsSplit c [] = tt
split_once-IsSplit c (b ∷ s) = elim (Bool-cases (b == c)) [
  | inl p ↦ rw p (ap (λ x. x ∷ s) ((==_iff b c).0 p), λ m. m)
  | inr p ↦ rw p (prepend-IsSplit c b s (split_once c s) p (split_once-IsSplit c s))
]

-- Where the cut is known, so are the pieces.
pub split_once-some :
    (c : ℕ) (s before rest : Bytes)
    → split_once c s ≡ some (before, rest)
    → (s ≡ before ++ c ∷ rest) × ¬ In c before
split_once-some c s before rest h = subst (IsSplit c s) h (split_once-IsSplit c s)

pub splitn-cut :
    (n c : ℕ) (s first rest : Bytes)
    → split_once c s ≡ some (first, rest)
    → splitn (suc (suc n)) c s ≡ first ∷ splitn (suc n) c rest
unfolding splitn
splitn-cut n c s first rest h = rw (splitn, h) refl

pub splitn-uncut : (n c : ℕ) (s : Bytes) → split_once c s ≡ none → splitn (suc (suc n)) c s ≡ s ∷ []
unfolding splitn
splitn-uncut n c s h = rw (splitn, h) refl
