-- ===== src/Server/Dedupe/Seen.antt =====
-- crates/jet-server/src/webhook/dedupe.rs: the entries are a map from delivery ids.
use jetrun.Prelude.{
  ◌-◌, ◌<◌, lt→ltb, ℕ, ◌≡◌, refl, sym, ap, ◌∙◌, subst, ◌≢◌, inl, inr, true, false, none, some, [],
  ◌∷◌, if◌then◌else◌, Bool-cases, Bytes, bytes_eq, bytes_eq_iff,
}
use mathlib.Core.Bool.{false≢true}
use jetrun.Server.Dedupe.{Seen, get, remove, insert, retain, is_recent, is_repeat}

-- No id stands twice.
abbrev pub IsMap : Seen → Type 0
IsMap [] = Unit
IsMap ((k, at) ∷ seen) = (get k seen ≡ none) × IsMap seen

pub get-insert_seen :
    (j k : Bytes) (now : ℕ) (seen : Seen)
    → get j (insert k now seen) ≡ (if bytes_eq k j then some now else get j seen)
unfolding get insert
get-insert_seen j k now [] = refl
get-insert_seen j k now ((i, at) ∷ seen) = elim (Bool-cases (bytes_eq i k)) [
  | inl p ↦ elim (Bool-cases (bytes_eq i j)) [
    | inl q ↦ rw (p, q, sym (same p) ∙ q) refl
    | inr q ↦ rw (p, q, sym (same p) ∙ q) refl
  ]
  | inr p ↦ elim (Bool-cases (bytes_eq i j)) [
    | inl q ↦ rw (p, q, other p q) refl
    | inr q ↦ rw (p, q) (get-insert_seen j k now seen)
  ]
]
  where
    same : bytes_eq i k ≡ true → bytes_eq i j ≡ bytes_eq k j
    same p = ap (λ x. bytes_eq x j) ((bytes_eq_iff i k).0 p)

    other : bytes_eq i k ≡ false → bytes_eq i j ≡ true → bytes_eq k j ≡ false
    other p q = elim (Bool-cases (bytes_eq k j)) [
      | inl r ↦ absurd (
          false≢true
            (sym p ∙ (bytes_eq_iff i k).1 ((bytes_eq_iff i j).0 q ∙ sym ((bytes_eq_iff k j).0 r))))
      | inr r ↦ r
    ]

-- An id that is absent stays so when entries are taken out.
get-remove-none : (j k : Bytes) (seen : Seen) → get j seen ≡ none → get j (remove k seen) ≡ none
unfolding get remove
get-remove-none j k [] h = refl
get-remove-none j k ((i, at) ∷ seen) h = elim (Bool-cases (bytes_eq i j)) [
  | inl q ↦ absurd (some≢none (rw q at h))
  | inr q ↦ elim (Bool-cases (bytes_eq i k)) [
    | inl p ↦ rw p (rw q at h)
    | inr p ↦ rw (p, q) (get-remove-none j k seen (rw q at h))
  ]
]
  where
    some≢none : {a : ℕ} → some a ≢ none
    some≢none h = cc

get-retain-none :
    (ttl now : ℕ) (j : Bytes) (seen : Seen) → get j seen ≡ none → get j (retain ttl now seen) ≡ none
unfolding get retain
get-retain-none ttl now j [] h = refl
get-retain-none ttl now j ((i, at) ∷ seen) h = elim (Bool-cases (bytes_eq i j)) [
  | inl q ↦ absurd (some≢none (rw q at h))
  | inr q ↦ elim (Bool-cases (is_recent ttl now at)) [
    | inl p ↦ rw (p, q) (get-retain-none ttl now j seen (rw q at h))
    | inr p ↦ rw p (get-retain-none ttl now j seen (rw q at h))
  ]
]
  where
    some≢none : {a : ℕ} → some a ≢ none
    some≢none h = cc

pub remove-IsMap : (k : Bytes) (seen : Seen) → IsMap seen → IsMap (remove k seen)
unfolding remove
remove-IsMap k [] m = m
remove-IsMap k ((i, at) ∷ seen) m = elim (Bool-cases (bytes_eq i k)) [
  | inl p ↦ rw p m.1
  | inr p ↦ rw p (get-remove-none i k seen m.0, remove-IsMap k seen m.1)
]

pub retain-IsMap : (ttl now : ℕ) (seen : Seen) → IsMap seen → IsMap (retain ttl now seen)
unfolding retain
retain-IsMap ttl now [] m = m
retain-IsMap ttl now ((i, at) ∷ seen) m = elim (Bool-cases (is_recent ttl now at)) [
  | inl p ↦ rw p (get-retain-none ttl now i seen m.0, retain-IsMap ttl now seen m.1)
  | inr p ↦ rw p (retain-IsMap ttl now seen m.1)
]

pub insert-IsMap : (k : Bytes) (now : ℕ) (seen : Seen) → IsMap seen → IsMap (insert k now seen)
unfolding insert get
insert-IsMap k now [] m = (refl, tt)
insert-IsMap k now ((i, at) ∷ seen) m = elim (Bool-cases (bytes_eq i k)) [
  | inl p ↦ rw p m
  | inr p ↦ rw p (apart p, insert-IsMap k now seen m.1)
]
  where
    apart : bytes_eq i k ≡ false → get i (insert k now seen) ≡ none
    apart p = elim (Bool-cases (bytes_eq k i)) [
      | inl q ↦ absurd (false≢true (sym p ∙ (bytes_eq_iff i k).1 (sym ((bytes_eq_iff k i).0 q))))
      | inr q ↦ get-insert_seen i k now seen ∙ rw q m.0
    ]

-- Pruning does not change which ids are repeats.
pub is_repeat-retain :
    (ttl now : ℕ) (j : Bytes) (seen : Seen)
    → IsMap seen
    → is_repeat ttl now (get j (retain ttl now seen)) ≡ is_repeat ttl now (get j seen)
unfolding get retain
is_repeat-retain ttl now j [] m = refl
is_repeat-retain ttl now j ((i, at) ∷ seen) m = elim (Bool-cases (is_recent ttl now at)) [
  | inl p ↦ elim (Bool-cases (bytes_eq i j)) [
    | inl q ↦ rw (p, q) refl
    | inr q ↦ rw (p, q) (is_repeat-retain ttl now j seen m.1)
  ]
  | inr p ↦ elim (Bool-cases (bytes_eq i j)) [
    | inl q ↦
        rw
          (
            p,
            q,
            get-retain-none ttl now j seen
                (subst (λ x. get x seen ≡ none) ((bytes_eq_iff i j).0 q) m.0),
          )
          (sym p)
    | inr q ↦ rw (p, q) (is_repeat-retain ttl now j seen m.1)
  ]
]

-- Pruning keeps what is recent.
pub get-retain :
    (ttl now : ℕ) (j : Bytes) (seen : Seen) (at : ℕ)
    → get j seen ≡ some at
    → now - at < ttl
    → get j (retain ttl now seen) ≡ some at
unfolding get retain
get-retain ttl now j [] at h k = h
get-retain ttl now j ((i, t) ∷ seen) at h k = elim (Bool-cases (bytes_eq i j)) [
  | inl q ↦
      rw (lt→ltb _ _ (subst (λ x. now - x < ttl) (sym (some-injective (rw q at h))) k), q)
        (rw q at h)
  | inr q ↦ elim (Bool-cases (is_recent ttl now t)) [
    | inl p ↦ rw (p, q) (get-retain ttl now j seen at (rw q at h) k)
    | inr p ↦ rw p (get-retain ttl now j seen at (rw q at h) k)
  ]
]
  where
    some-injective : {a b : ℕ} → some a ≡ some b → a ≡ b
    some-injective h = cc
