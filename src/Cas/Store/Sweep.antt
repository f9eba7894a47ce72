-- ===== src/Cas/Store/Sweep.antt =====
-- crates/jet-cas/src/store.rs: what a collection leaves.
use jetrun.Cas.Store.Reach.Sound.{marked-reached}
use jetrun.Cas.Store.Fuel.{mark-total}
use jetrun.Prelude.{
  suc, keep_iff, ℕ, ◌+◌, ◌-◌, ◌<◌, ◌≡◌, refl, sym, ap, ◌∙◌, subst, ◌↔◌, ◌⊎◌, inl, inr, Bool, true,
  false, ◌||◌, some, List, [], ◌∷◌, arith, ltb→lt, lt→ltb, Bool-cases, keep, Reflects, ||_iff,
  length, In, Bytes, bytes_eq, bytes_eq_iff,
}
use mathlib.Core.Bool.{false≢true}
use jetrun.Cas.Store.{Object, GcStats, contains, get_bytes, is_young, sweep, swept, gc}
use jetrun.Cas.Store.Mark.{contains_iff}
use jetrun.Cas.Store.Reach.{IsReached, AreApart, reached-marked}

module _ (live : List Bytes) (now min_age : ℕ) where
  abbrev kept : GcStats → List Object → List Object
  kept stats objects = (sweep live now min_age stats objects).1

  abbrev stays : Object → Bool
  stays o = contains live o.digest || is_young now min_age o

  abbrev spared : GcStats → GcStats
  spared stats = record stats { spared_young = stats.spared_young + 1 }

  abbrev unlinked : GcStats → Object → GcStats
  unlinked stats o = record stats {
    deleted = stats.deleted + 1;
    bytes_freed = stats.bytes_freed + length o.bytes;
  }

  sweep-nil : (stats : GcStats) → sweep live now min_age stats [] ≡ (stats, [])
  unfolding sweep
  sweep-nil stats = refl

  -- One round of the sweep.
  sweep-live :
      (o : Object) (objects : List Object) (stats : GcStats)
      → contains live o.digest ≡ true
      → sweep live now min_age stats (o ∷ objects)
        ≡ ((sweep live now min_age stats objects).0, o ∷ kept stats objects)
  unfolding sweep
  sweep-live o objects stats p = rw (sweep, p) refl

  sweep-young :
      (o : Object) (objects : List Object) (stats : GcStats)
      → contains live o.digest ≡ false
      → is_young now min_age o ≡ true
      → sweep live now min_age stats (o ∷ objects)
        ≡ ((sweep live now min_age (spared stats) objects).0, o ∷ kept (spared stats) objects)
  unfolding sweep
  sweep-young o objects stats p y = rw (sweep, p, y) refl

  sweep-dead :
      (o : Object) (objects : List Object) (stats : GcStats)
      → contains live o.digest ≡ false
      → is_young now min_age o ≡ false
      → sweep live now min_age stats (o ∷ objects)
        ≡ sweep live now min_age (unlinked stats o) objects
  unfolding sweep
  sweep-dead o objects stats p y = rw (sweep, p, y) refl

  abbrev IsFiltered : GcStats → List Object → GcStats × List Object → Type 0
  IsFiltered stats objects (after, left) =
      (left ≡ keep stays objects) × (after.deleted + length left ≡ stats.deleted + length objects)

  -- The sweep filters the objects, and counts what it unlinks.
  sweep-keep :
      (objects : List Object) (stats : GcStats)
      → IsFiltered stats objects (sweep live now min_age stats objects)
  unfolding keep
  sweep-keep [] stats = subst (IsFiltered stats []) (sym (sweep-nil stats)) (refl, omega arith)
  sweep-keep (o ∷ objects) stats = elim (Bool-cases (contains live o.digest)) [
    | inl p ↦
        let (e, n) = sweep-keep objects stats in
        subst (IsFiltered stats (o ∷ objects)) (sym (sweep-live o objects stats p))
          (rw p (ap (λ os. o ∷ os) e), counted _ _ _ _ n)
    | inr p ↦ elim (Bool-cases (is_young now min_age o)) [
      | inl y ↦
          let (e, n) = sweep-keep objects (spared stats) in
          subst (IsFiltered stats (o ∷ objects)) (sym (sweep-young o objects stats p y))
            (rw (p, y) (ap (λ os. o ∷ os) e), counted _ _ _ _ n)
      | inr y ↦
          let (e, n) = sweep-keep objects (unlinked stats o) in
          subst (IsFiltered stats (o ∷ objects)) (sym (sweep-dead o objects stats p y))
            (rw (p, y) e, n ∙ deleted_one stats.deleted (length objects))
    ]
  ]
    where
      counted : (a b c d : ℕ) → a + b ≡ c + d → a + suc b ≡ c + suc d
      counted a b c d n = omega arith

      deleted_one : (c d : ℕ) → c + 1 + d ≡ c + suc d
      deleted_one c d = omega arith

  stays_iff : (o : Object) → Reflects (stays o) (In o.digest live ⊎ (now - o.modified < min_age))
  stays_iff o = ||_iff (contains_iff live o.digest) (λ h. ltb→lt _ _ h, λ h. lt→ltb _ _ h)

  -- What a live digest names is still there.
  keep-get_bytes :
      (objects : List Object) (d : Bytes)
      → In d live
      → get_bytes (keep stays objects) d ≡ get_bytes objects d
  unfolding keep get_bytes
  keep-get_bytes [] d m = refl
  keep-get_bytes (o ∷ objects) d m = elim (Bool-cases (stays o)) [
    | inl p ↦ elim (Bool-cases (bytes_eq o.digest d)) [
      | inl q ↦ rw (p, q) refl
      | inr q ↦ rw (p, q) (keep-get_bytes objects d m)
    ]
    | inr p ↦ elim (Bool-cases (bytes_eq o.digest d)) [
      | inl q ↦ absurd (
          false≢true (
            sym p
            ∙ (stays_iff o).1
                (inl (subst (λ x. In x live) (sym ((bytes_eq_iff o.digest d).0 q)) m))))
      | inr q ↦ rw (p, q) (keep-get_bytes objects d m)
    ]
  ]

  left_iff :
      (objects left : List Object)
      → left ≡ keep stays objects
      → (Reached : Bytes → Type 0) → ((d : Bytes) → Reached d → In d live)
      → ((d : Bytes) → In d live → Reached d)
      → (o : Object)
      → In o left ↔ (In o objects × (Reached o.digest ⊎ (now - o.modified < min_age)))
  left_iff objects left e Reached up down o = (
    λ m.
        let (k, w) = (keep_iff objects o stays_iff).0 (subst (λ os. In o os) e m) in
        (k, elim w [ inl l ↦ inl (down o.digest l) | inr y ↦ inr y ]),
    λ w.
        subst (λ os. In o os) (sym e)
          ((keep_iff objects o stays_iff).1
            (w.0, elim w.1 [ inl r ↦ inl (up o.digest r) | inr y ↦ inr y ])),
  )

module _ (tree_hash : Bytes → Bytes) (objects : List Object) (roots : List Bytes)
    (now min_age : ℕ) where
  -- What a collection answers and leaves.
  abbrev pub IsCollected : GcStats × List Object → Type 0
  IsCollected (stats, left) =
      ((o : Object)
        → In o left ↔ (
            In o objects
            × (IsReached tree_hash objects roots o.digest ⊎ (now - o.modified < min_age))))
      × ((d : Bytes) → IsReached tree_hash objects roots d → get_bytes left d ≡ get_bytes objects d)
      × (stats.deleted + length left ≡ length objects)

  -- When no file entry of a stored tree names a stored tree, a collection ends within its fuel: what it
  -- leaves is exactly what the roots reach and what is too young, every reached digest reads as before,
  -- and it counts what it deleted.
  pub gc-IsCollected :
      AreApart tree_hash objects
      → (out : GcStats × List Object) × (gc tree_hash objects roots now min_age ≡ some out)
        × IsCollected out
  unfolding gc
  gc-IsCollected apart =
      let (live, e) = mark-total tree_hash objects roots in
      let start : GcStats = record {
        live = length live;
        deleted = 0;
        bytes_freed = 0;
        spared_young = 0;
      } in
      let (filtered, counted) = sweep-keep live now min_age objects start in
      let up = reached-marked tree_hash objects apart _ roots live e in
      let down = marked-reached tree_hash objects _ roots live e in
      (
        sweep live now min_age start objects,
        ap (swept tree_hash objects now min_age) e,
        (
          left_iff live now min_age objects _ filtered (IsReached tree_hash objects roots) up down,
          λ d r.
              ap (λ os. get_bytes os d) filtered
              ∙ keep-get_bytes live now min_age objects d (up d r),
          counted ∙ plain (length objects),
        ),
      )
    where
      plain : (n : ℕ) → 0 + n ≡ n
      plain n = omega arith
