-- ===== src/Server/Dedupe/Replay.antt =====
-- crates/jet-server/src/webhook/dedupe.rs: what counts as a repeat, and that a delivery stays one.
use jetrun.Prelude.{
  ◌+◌, ◌≢◌, List, [], ◌∷◌, leb, leb→le, All, bytes_eq, bytes_eq_iff, bytes_eq_refl, ℕ, suc, ◌-◌,
  ◌/◌, ◌≤◌, ◌<◌, ◌≡◌, refl, sym, ◌∙◌, subst, ◌↔◌, inl, inr, true, Option, none, some, arith, ltb,
  ltb→lt, lt→ltb, Bool-cases, Reflects, length, Bytes,
}
use mathlib.Core.Bool.{false≢true}
use jetrun.Server.Dedupe.{
  Seen, DeliveryGuard, fresh, duplicate, unidentified, get, is_recent, is_repeat, evicted, pruned,
  looked_up, check, is_identified,
}
use jetrun.Server.Dedupe.Seen.{IsMap, get-insert_seen, is_repeat-retain, get-retain}
use jetrun.Server.Dedupe.Bounds.{IsBounded, length-pruned, length-insert, check-IsBounded}

-- The guard knows the id from less than its TTL ago.
abbrev pub IsKnown : DeliveryGuard → Bytes → ℕ → Type 0
IsKnown g id now = (at : ℕ) × (get id g.seen ≡ some at) × (now - at < g.ttl)

is_repeat_iff :
    (ttl now : ℕ) (o : Option ℕ)
    → Reflects (is_repeat ttl now o) ((at : ℕ) × (o ≡ some at) × (now - at < ttl))
is_repeat_iff ttl now none = (λ h. cc, λ w. cc)
is_repeat_iff ttl now (some at) = (
  λ h. (at, refl, ltb→lt _ _ h),
  λ w. subst (λ a. is_recent ttl now a ≡ true) (sym (some-injective w.1)) (lt→ltb _ _ w.2),
)
  where
    some-injective : {a b : ℕ} → some a ≡ some b → a ≡ b
    some-injective h = cc

is_repeat-pruned :
    (g : DeliveryGuard) (id : Bytes) (now : ℕ)
    → IsMap g.seen
    → is_repeat g.ttl now (get id (pruned g now)) ≡ is_repeat g.ttl now (get id g.seen)
unfolding pruned
is_repeat-pruned g id now m = elim (Bool-cases (ltb (g.capacity / 2) (length g.seen))) [
  | inl p ↦ rw p (is_repeat-retain g.ttl now id g.seen m)
  | inr p ↦ rw p refl
]

looked_up_iff :
    (g : DeliveryGuard) (id : Bytes) (now : ℕ) (seen : Seen)
    → ((looked_up g id now seen).0 ≡ duplicate) ↔ (is_repeat g.ttl now (get id seen) ≡ true)
looked_up_iff g id now seen = elim (Bool-cases (is_repeat g.ttl now (get id seen))) [
  | inl p ↦ rw p (λ h. refl, λ h. refl)
  | inr p ↦ rw p (λ h. cc, λ h. cc)
]

-- A delivery is a duplicate exactly when its id is one that can be stored, of 1 to 200 bytes, and the
-- guard knows it from less than its TTL ago; dropping expired entries first changes nothing.
pub check-duplicate_iff :
    (g : DeliveryGuard) (id : Bytes) (now : ℕ)
    → IsBounded g
    → ((check g (some id) now).0 ≡ duplicate) ↔ ((is_identified id ≡ true) × IsKnown g id now)
unfolding check
check-duplicate_iff g id now b = elim (Bool-cases (is_identified id)) [
  | inl p ↦ rw p (
    λ h. (
      refl,
      (is_repeat_iff _ _ _).0
          (sym (is_repeat-pruned g id now b.2) ∙ (looked_up_iff g id now _).0 h),
    ),
    λ w. (looked_up_iff g id now _).1 (is_repeat-pruned g id now b.2 ∙ (is_repeat_iff _ _ _).1 w.1),
  )
  | inr p ↦ rw p (λ h. cc, λ w. cc)
]

get-pruned :
    (g : DeliveryGuard) (id : Bytes) (now at : ℕ)
    → get id g.seen ≡ some at
    → now - at < g.ttl
    → get id (pruned g now) ≡ some at
unfolding pruned
get-pruned g id now at h k = elim (Bool-cases (ltb (g.capacity / 2) (length g.seen))) [
  | inl p ↦ rw p (get-retain g.ttl now id g.seen at h k)
  | inr p ↦ rw p h
]

-- What a check leaves alone: the settings, and what it knew of an id, while there is room.
abbrev IsKept : DeliveryGuard → Bytes → ℕ → DeliveryGuard → Type 0
IsKept g id at h =
    (h.ttl ≡ g.ttl)
    × (h.capacity ≡ g.capacity)
    × (length h.seen ≤ suc (length g.seen))
    × (get id h.seen ≡ some at)

-- With room, nothing is evicted.
evicted-room : (capacity : ℕ) (seen : Seen) → length seen < capacity → evicted capacity seen ≡ seen
unfolding evicted
evicted-room capacity seen h = elim (Bool-cases (leb capacity (length seen))) [
  | inl p ↦ absurd (full (leb→le _ _ p))
  | inr p ↦ rw p refl
]
  where
    full : ¬ capacity ≤ length seen
    full p = omega arith

looked_up-IsKept :
    (g : DeliveryGuard) (id : Bytes) (at : ℕ) (j : Bytes) (now : ℕ) (seen : Seen)
    → get id seen ≡ some at
    → now - at < g.ttl
    → length seen ≤ length g.seen
    → length g.seen < g.capacity
    → IsKept g id at (looked_up g j now seen).1
looked_up-IsKept g id at j now seen h k le room =
    elim (Bool-cases (is_repeat g.ttl now (get j seen))) [
      | inl p ↦ rw p (refl, refl, omega arith, h)
      | inr p ↦
          rw (p, evicted-room g.capacity seen (omega arith))
            (
              refl,
              refl,
              omega (arith, length-insert j now seen, le),
              get-insert_seen id j now seen ∙ elim (Bool-cases (bytes_eq j id)) [
                | inl q ↦ absurd (false≢true (sym p ∙ known q))
                | inr q ↦ rw q h
              ],
            )
    ]
  where
    known : bytes_eq j id ≡ true → is_repeat g.ttl now (get j seen) ≡ true
    known q =
        subst (λ x. is_repeat g.ttl now (get x seen) ≡ true) (sym ((bytes_eq_iff j id).0 q))
          ((is_repeat_iff g.ttl now (get id seen)).1 (at, h, k))

check-IsKept :
    (g : DeliveryGuard) (id : Bytes) (at : ℕ) (other : Option Bytes) (now : ℕ)
    → get id g.seen ≡ some at
    → now - at < g.ttl
    → length g.seen < g.capacity
    → IsKept g id at (check g other now).1
unfolding check
check-IsKept g id at none now h k room = (refl, refl, omega arith, h)
check-IsKept g id at (some j) now h k room = elim (Bool-cases (is_identified j)) [
  | inl p ↦ rw p (
      looked_up-IsKept g id at j now (pruned g now) (get-pruned g id now at h k) k
        (length-pruned g now) room)
  | inr p ↦ rw p (refl, refl, omega arith, h)
]

-- A sequence of later requests, each with its id and its time.
unfoldable pub checks : DeliveryGuard → List (Option Bytes × ℕ) → DeliveryGuard
checks g [] = g
checks g ((id, now) ∷ later) = checks (check g id now).1 later

checks-kept :
    (g : DeliveryGuard) (id : Bytes) (at : ℕ) (later : List (Option Bytes × ℕ))
    → IsBounded g
    → get id g.seen ≡ some at
    → All (λ c. c.1 - at < g.ttl) later
    → length g.seen + length later ≤ g.capacity
    → IsBounded (checks g later)
      × ((checks g later).ttl ≡ g.ttl)
      × (get id (checks g later).seen ≡ some at)
unfolding checks
checks-kept g id at [] b h t room = (b, refl, h)
checks-kept g id at ((other, now) ∷ later) b h t room =
    let kept = check-IsKept g id at other now h t.0 (omega arith) in
    let (x, y, z) =
      checks-kept (check g other now).1 id at later (check-IsBounded g other now b) kept.3
        (subst (λ ttl. All (λ c. c.1 - at < ttl) later) (sym kept.0) t.1)
        (omega (arith, kept.1, kept.2, room)) in
    (x, y ∙ kept.0, z)

looked_up-fresh :
    (g : DeliveryGuard) (id : Bytes) (now : ℕ) (seen : Seen)
    → (looked_up g id now seen).0 ≡ fresh
    → ((looked_up g id now seen).1.ttl ≡ g.ttl)
      × (get id (looked_up g id now seen).1.seen ≡ some now)
looked_up-fresh g id now seen h = elim (Bool-cases (is_repeat g.ttl now (get id seen))) [
  | inl p ↦ absurd (differ (rw p at h))
  | inr p ↦ rw p (refl, get-insert_seen id id now _ ∙ rw (bytes_eq_refl id) refl)
]
  where
    differ : duplicate ≢ fresh
    differ h = cc

check-fresh :
    (g : DeliveryGuard) (id : Bytes) (now : ℕ)
    → (check g (some id) now).0 ≡ fresh
    → (is_identified id ≡ true)
      × ((check g (some id) now).1.ttl ≡ g.ttl)
      × (get id (check g (some id) now).1.seen ≡ some now)
unfolding check
check-fresh g id now h = elim (Bool-cases (is_identified id)) [
  | inl p ↦ let (x, y) = looked_up-fresh g id now (pruned g now) (rw p at h) in rw p (refl, x, y)
  | inr p ↦ absurd (differ (rw p at h))
]
  where
    differ : unidentified ≢ fresh
    differ h = cc

-- No redelivery starts a second run: once a delivery was fresh, and after any later requests that
-- leave room in the guard and come less than the TTL after it, the same id is a duplicate for as
-- long as its TTL lasts.
pub check-replayed :
    (g : DeliveryGuard) (id : Bytes) (now : ℕ) (later : List (Option Bytes × ℕ)) (again : ℕ)
    → IsBounded g
    → (check g (some id) now).0 ≡ fresh
    → All (λ c. c.1 - now < g.ttl) later
    → length (check g (some id) now).1.seen + length later ≤ (check g (some id) now).1.capacity
    → again - now < g.ttl
    → (check (checks (check g (some id) now).1 later) (some id) again).0 ≡ duplicate
check-replayed g id now later again b h t room k =
    let (p, ttl, known) = check-fresh g id now h in
    let (b', ttl', known') =
      checks-kept (check g (some id) now).1 id now later (check-IsBounded g (some id) now b) known
        (subst (λ ttl. All (λ c. c.1 - now < ttl) later) (sym ttl) t) room in
    (check-duplicate_iff _ id again b').1
      (p, (now, known', subst (λ ttl. again - now < ttl) (sym (ttl' ∙ ttl)) k))
