-- ===== src/Prelude/Members.antt =====
-- Searching, filtering and flattening lists, with what a member of the result comes from.

use mathlib.Core.Path.{◌≡◌, refl, sym, ◌∙◌}
use mathlib.Core.Logic.{◌⊎◌, inl, inr, ◌↔◌}
use mathlib.Core.Bool.{Bool, true, false, ◌||◌, false≢true}
use mathlib.Core.List.{List, [], ◌∷◌, ◌++◌, map}
use jetrun.Prelude.Lists.{In}
use jetrun.Prelude.Tests.{Bool-cases, if◌then◌else◌}

or-true : (b : Bool) → (b || true) ≡ true
or-true true = refl
or-true false = refl

-- `iter().any`
unfoldable pub any : {A : Type 0} → (A → Bool) → List A → Bool
any f [] = false
any f (x ∷ xs) = f x || any f xs

pub any-In :
    {A : Type 0} (f : A → Bool) (xs : List A) → any f xs ≡ true → (a : A) × In a xs × (f a ≡ true)
unfolding any
any-In f [] h = cc
any-In f (x ∷ xs) h = elim (Bool-cases (f x)) [
  | inl e ↦ (x, inl refl, e)
  | inr e ↦ let (a, m, k) = any-In f xs (rw e at h) in (a, inr m, k)
]

pub In-any :
    {A : Type 0} (f : A → Bool) (xs : List A) (a : A) → In a xs → f a ≡ true → any f xs ≡ true
unfolding any
In-any f [] a m h = absurd m
In-any f (x ∷ xs) a (inl e) h = rw (← e, h)
In-any f (x ∷ xs) a (inr m) h = rw (In-any f xs a m h) (or-true (f x))

-- `iter().filter`
unfoldable pub keep : {A : Type 0} → (A → Bool) → List A → List A
keep f [] = []
keep f (x ∷ xs) = let rest = keep f xs in if f x then x ∷ rest else rest

pub In-keep :
    {A : Type 0} (f : A → Bool) (xs : List A) (a : A) → In a (keep f xs) ↔ (In a xs × (f a ≡ true))
unfolding keep
In-keep f [] a = (λ m. absurd m, λ m. absurd m.0)
In-keep f (x ∷ xs) a = elim (Bool-cases (f x)) [
  | inl e ↦ rw e (
    λ m. elim m [
      | inl q ↦ (inl q, rw q e)
      | inr k ↦ let (u, v) = (In-keep f xs a).0 k in (inr u, v)
    ],
    λ m. elim m.0 [ inl q ↦ inl q | inr k ↦ inr ((In-keep f xs a).1 (k, m.1)) ],
  )
  | inr e ↦ rw e (
    λ m. let (u, v) = (In-keep f xs a).0 m in (inr u, v),
    λ m. elim m.0 [
      | inl q ↦ absurd (false≢true (sym e ∙ rw q at m.1))
      | inr k ↦ (In-keep f xs a).1 (k, m.1)
    ],
  )
]

pub In-append : {A : Type 0} (xs ys : List A) (a : A) → In a (xs ++ ys) ↔ (In a xs ⊎ In a ys)
In-append [] ys a = (λ m. inr m, λ m. elim m [ inl k ↦ absurd k | inr k ↦ k ])
In-append (x ∷ xs) ys a = (
  λ m. elim m [
    | inl q ↦ inl (inl q)
    | inr k ↦ elim ((In-append xs ys a).0 k) [ inl u ↦ inl (inr u) | inr u ↦ inr u ]
  ],
  λ m. elim m [
    | inl k ↦ elim k [ inl q ↦ inl q | inr u ↦ inr ((In-append xs ys a).1 (inl u)) ]
    | inr u ↦ inr ((In-append xs ys a).1 (inr u))
  ],
)

pub In-map :
    {A B : Type 0} (f : A → B) (xs : List A) (b : B)
    → In b (map f xs)
    → (a : A) × In a xs × (b ≡ f a)
In-map f [] b m = absurd m
In-map f (x ∷ xs) b (inl e) = (x, inl refl, e)
In-map f (x ∷ xs) b (inr m) = let (a, k, e) = In-map f xs b m in (a, inr k, e)

pub map-In : {A B : Type 0} (f : A → B) (xs : List A) (a : A) → In a xs → In (f a) (map f xs)
map-In f [] a m = absurd m
map-In f (x ∷ xs) a (inl e) = inl (rw e refl)
map-In f (x ∷ xs) a (inr m) = inr (map-In f xs a m)

unfoldable pub flat_map : {A B : Type 0} → (A → List B) → List A → List B
flat_map f [] = []
flat_map f (x ∷ xs) = f x ++ flat_map f xs

pub In-flat_map :
    {A B : Type 0} (f : A → List B) (xs : List A) (b : B)
    → In b (flat_map f xs)
    → (a : A) × In a xs × In b (f a)
unfolding flat_map
In-flat_map f [] b m = absurd m
In-flat_map f (x ∷ xs) b m = elim ((In-append (f x) (flat_map f xs) b).0 m) [
  | inl k ↦ (x, inl refl, k)
  | inr k ↦ let (a, u, v) = In-flat_map f xs b k in (a, inr u, v)
]

pub flat_map-In :
    {A B : Type 0} (f : A → List B) (xs : List A) (a : A) (b : B)
    → In a xs
    → In b (f a)
    → In b (flat_map f xs)
unfolding flat_map
flat_map-In f [] a b m k = absurd m
flat_map-In f (x ∷ xs) a b (inl e) k = (In-append (f x) (flat_map f xs) b).1 (inl (rw e at k))
flat_map-In f (x ∷ xs) a b (inr m) k =
    (In-append (f x) (flat_map f xs) b).1 (inr (flat_map-In f xs a b m k))
