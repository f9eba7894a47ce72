-- ===== src/Server/Dedupe/Bounds.antt =====
-- crates/jet-server/src/webhook/dedupe.rs: the guard never remembers more than its capacity, and no
-- id twice.
use jetrun.Prelude.{
  zero, ◌/◌, sym, ◌⊎◌, false, Option, none, ltb, leb→le, bytes_eq, bytes_eq_refl, ℕ, suc, ◌≤◌, ◌≡◌,
  refl, inl, inr, some, [], ◌∷◌, arith, leb, Bool-cases, Option-cases, length, Bytes,
}
use jetrun.Server.Dedupe.{
  Seen, DeliveryGuard, get, remove, insert, retain, oldest, older_of, is_repeat, without, evicted,
  pruned, looked_up, check, at_least_one, new, is_identified,
}
use jetrun.Server.Dedupe.Seen.{IsMap, remove-IsMap, retain-IsMap, insert-IsMap}

abbrev pub IsBounded : DeliveryGuard → Type 0
IsBounded g = (1 ≤ g.capacity) × (length g.seen ≤ g.capacity) × IsMap g.seen

length-retain : (ttl now : ℕ) (seen : Seen) → length (retain ttl now seen) ≤ length seen
unfolding retain
length-retain ttl now [] = omega arith
length-retain ttl now ((i, at) ∷ seen) = ground (arith, length-retain ttl now seen)

pub length-insert :
    (k : Bytes) (now : ℕ) (seen : Seen) → length (insert k now seen) ≤ suc (length seen)
unfolding insert
length-insert k now [] = omega arith
length-insert k now ((i, at) ∷ seen) = ground (arith, length-insert k now seen)

length-remove :
    (k : Bytes) (seen : Seen) (at : ℕ)
    → get k seen ≡ some at
    → suc (length (remove k seen)) ≡ length seen
unfolding get remove
length-remove k [] at h = cc
length-remove k ((i, t) ∷ seen) at h = ground (arith, length-remove k seen at)

older-cases :
    (x : Bytes × ℕ) (o : Option (Bytes × ℕ)) (e : Bytes × ℕ)
    → older_of x o ≡ some e
    → (e ≡ x) ⊎ (o ≡ some e)
unfolding older_of
older-cases x none e h = inl (sym (some-injective h))
  where
    some-injective : {a b : Bytes × ℕ} → some a ≡ some b → a ≡ b
    some-injective h = cc
older-cases x (some f) e h = elim (Bool-cases (leb x.1 f.1)) [
  | inl p ↦ inl (sym (some-injective (rw p at h)))
  | inr p ↦ inr (rw p at h)
]
  where
    some-injective : {a b : Bytes × ℕ} → some a ≡ some b → a ≡ b
    some-injective h = cc

-- The oldest entry is one of the entries.
oldest-get :
    (seen : Seen) (e : Bytes × ℕ) → oldest seen ≡ some e → (at : ℕ) × (get e.0 seen ≡ some at)
unfolding oldest older_of get
oldest-get [] e h = cc
oldest-get ((i, t) ∷ seen) e h = elim (older-cases (i, t) (oldest seen) e h) [
  | inl q ↦ (t, rw (q, bytes_eq_refl i) refl)
  | inr q ↦ elim (Bool-cases (bytes_eq i e.0)) [
    | inl p ↦ (t, rw p refl)
    | inr p ↦ let (at, g) = oldest-get seen e q in (at, rw p g)
  ]
]

oldest-some : (seen : Seen) → 1 ≤ length seen → (e : Bytes × ℕ) × (oldest seen ≡ some e)
unfolding oldest older_of
oldest-some [] h = absurd (omega arith)
oldest-some (x ∷ seen) h = elim (Option-cases (oldest seen)) [
  | inl e ↦ rw e (x, refl)
  | inr (f, e) ↦ elim (Bool-cases (leb x.1 f.1)) [
    | inl p ↦ rw (e, p) (x, refl)
    | inr p ↦ rw (e, p) (f, refl)
  ]
]

length-evicted :
    (capacity : ℕ) (seen : Seen)
    → 1 ≤ capacity
    → length seen ≤ capacity
    → suc (length (evicted capacity seen)) ≤ capacity
unfolding evicted
length-evicted capacity seen h k = elim (Bool-cases (leb capacity (length seen))) [
  | inl p ↦
      let (e, o) = oldest-some seen (omega (arith, leb→le _ _ p)) in
      let (at, g) = oldest-get seen e o in rw (p, o) (omega (arith, length-remove e.0 seen at g))
  | inr p ↦ rw p (smaller capacity (length seen) p)
]
  where
    smaller : (a b : ℕ) → leb a b ≡ false → suc b ≤ a
    smaller a b p = ground arith

pub length-pruned : (g : DeliveryGuard) (now : ℕ) → length (pruned g now) ≤ length g.seen
unfolding pruned
length-pruned g now = elim (Bool-cases (ltb (g.capacity / 2) (length g.seen))) [
  | inl p ↦ rw p (length-retain g.ttl now g.seen)
  | inr p ↦ rw p (omega arith)
]

pub pruned-IsMap : (g : DeliveryGuard) (now : ℕ) → IsMap g.seen → IsMap (pruned g now)
unfolding pruned
pruned-IsMap g now m = elim (Bool-cases (ltb (g.capacity / 2) (length g.seen))) [
  | inl p ↦ rw p (retain-IsMap g.ttl now g.seen m)
  | inr p ↦ rw p m
]

without-IsMap : (o : Option (Bytes × ℕ)) (seen : Seen) → IsMap seen → IsMap (without o seen)
without-IsMap none seen m = m
without-IsMap (some e) seen m = remove-IsMap e.0 seen m

evicted-IsMap : (capacity : ℕ) (seen : Seen) → IsMap seen → IsMap (evicted capacity seen)
unfolding evicted
evicted-IsMap capacity seen m = elim (Bool-cases (leb capacity (length seen))) [
  | inl p ↦ rw p (without-IsMap (oldest seen) seen m)
  | inr p ↦ rw p m
]

looked_up-IsBounded :
    (g : DeliveryGuard) (id : Bytes) (now : ℕ) (seen : Seen)
    → 1 ≤ g.capacity
    → length seen ≤ g.capacity
    → IsMap seen
    → IsBounded (looked_up g id now seen).1
looked_up-IsBounded g id now seen one le m = elim (Bool-cases (is_repeat g.ttl now (get id seen))) [
  | inl p ↦ rw p (one, le, m)
  | inr p ↦ rw p (
    one,
    omega (
      arith,
      length-insert id now (evicted g.capacity seen),
      length-evicted g.capacity seen one le,
    ),
    insert-IsMap id now _ (evicted-IsMap g.capacity seen m),
  )
]

-- The guard starts within its bounds, whatever capacity it is given.
pub new-IsBounded : (ttl capacity : ℕ) → IsBounded (new ttl capacity)
unfolding new at_least_one
new-IsBounded ttl zero = (omega arith, omega arith, tt)
new-IsBounded ttl (suc n) = (omega arith, omega arith, tt)

-- A check keeps the guard within its bounds: it remembers at most as many ids as its capacity, no id
-- twice, and its capacity is at least one.
pub check-IsBounded :
    (g : DeliveryGuard) (id : Option Bytes) (now : ℕ) → IsBounded g → IsBounded (check g id now).1
unfolding check
check-IsBounded g none now b = b
check-IsBounded g (some id) now b = elim (Bool-cases (is_identified id)) [
  | inl p ↦ rw p (
      looked_up-IsBounded g id now (pruned g now) b.0 (omega (arith, length-pruned g now, b.1))
        (pruned-IsMap g now b.2))
  | inr p ↦ rw p b
]
