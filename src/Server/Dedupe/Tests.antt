-- ===== src/Server/Dedupe/Tests.antt =====
-- crates/jet-server/src/webhook/dedupe.rs: a guard for four ids, and a redelivery.
use jetrun.Prelude.{
  ℕ, ◌+◌, ◌-◌, ◌≤◌, ◌<◌, ◌≡◌, refl, ◌↔◌, true, Option, none, some, List, [], ◌∷◌, arith, length,
  All, Bytes, codes, bytes_eq,
}
use jetrun.Server.Dedupe.{
  DeliveryGuard, fresh, duplicate, check, new, get, remove, insert, retain, oldest, older_of,
  pruned, evicted, at_least_one, is_identified,
}
use jetrun.Server.Dedupe.Bounds.{IsBounded, new-IsBounded, check-IsBounded}
use jetrun.Server.Dedupe.Replay.{IsKnown, checks, check-duplicate_iff, check-replayed}

abbrev empty : DeliveryGuard
empty = new 1000 4

abbrev once : DeliveryGuard
once = (check empty (some (codes "d1")) 10).1

abbrev between : List (Option Bytes × ℕ)
between = (some (codes "d2"), 20) ∷ (none, 30) ∷ []

first_is_fresh : (check empty (some (codes "d1")) 10).0 ≡ fresh
unfolding check new at_least_one pruned get
first_is_fresh = refl

-- A full guard evicts the oldest.
evicts :
    get
      (codes "a")
      (check
        (check (check (new 1000 2) (some (codes "a")) 1).1 (some (codes "b")) 2).1
        (some (codes "c"))
        3).1.seen
    ≡ none
unfolding check new at_least_one pruned get evicted oldest older_of remove insert retain bytes_eq
evicts = refl

in_time : All (λ c. c.1 - 10 < empty.ttl) between
unfolding new
in_time = (omega arith, (omega arith, tt))

has_room : length once.seen + length between ≤ once.capacity
unfolding check new at_least_one pruned get insert evicted
has_room = omega arith

soon : 900 - 10 < empty.ttl
unfolding new
soon = omega arith

check-IsBounded_example : IsBounded once
check-IsBounded_example = check-IsBounded empty (some (codes "d1")) 10 (new-IsBounded 1000 4)

once-IsBounded : IsBounded once
once-IsBounded = check-IsBounded empty (some (codes "d1")) 10 (new-IsBounded 1000 4)

check-duplicate_iff_example :
    ((check once (some (codes "d1")) 500).0 ≡ duplicate)
    ↔ ((is_identified (codes "d1") ≡ true) × IsKnown once (codes "d1") 500)
check-duplicate_iff_example = check-duplicate_iff once (codes "d1") 500 once-IsBounded

check-replayed_example : (check (checks once between) (some (codes "d1")) 900).0 ≡ duplicate
check-replayed_example =
    check-replayed empty (codes "d1") 10 between 900 (new-IsBounded 1000 4) first_is_fresh in_time
      has_room soon
