-- ===== src/Server/Dedupe.antt =====
-- crates/jet-server/src/webhook/dedupe.rs: the guard against replayed deliveries. Times are
-- milliseconds of a monotonic clock; `Instant::duration_since` stops at zero, as subtraction does.
-- The hash map is a list of its entries; where the oldest are several, the code takes whichever its
-- iteration meets first, and so does the list.
pub mod Seen
pub mod Bounds
pub mod Replay
mod Tests
use jetrun.Prelude.{
  ℕ, zero, suc, ◌-◌, ◌*◌, ◌/◌, Bool, false, not, ◌&&◌, Option, none, some, List, [], ◌∷◌, ltb, leb,
  ◌==◌, if◌then◌else◌, length, Bytes, bytes_eq,
}

-- `DEFAULT_TTL` and `DEFAULT_CAPACITY`
abbrev pub default_ttl : ℕ
default_ttl = 3600 * 1000

abbrev pub default_capacity : ℕ
default_capacity = 65536

abbrev pub Seen : Type 0
Seen = List (Bytes × ℕ)

pub record DeliveryGuard : Type 0 where
  pub ttl : ℕ
  pub capacity : ℕ
  pub seen : Seen

pub data Delivery : Type 0 where
  fresh duplicate unidentified : Delivery

unfoldable pub at_least_one : ℕ → ℕ
at_least_one zero = 1
at_least_one (suc n) = suc n

unfoldable pub new : ℕ → ℕ → DeliveryGuard
new ttl capacity = record { ttl = ttl; capacity = at_least_one capacity; seen = [] }

abbrev pub default : DeliveryGuard
default = new default_ttl default_capacity

-- `HashMap::get`, `remove` and `insert`
unfoldable pub get : Bytes → Seen → Option ℕ
get id [] = none
get id ((k, at) ∷ seen) = if bytes_eq k id then some at else get id seen

unfoldable pub remove : Bytes → Seen → Seen
remove id [] = []
remove id ((k, at) ∷ seen) = if bytes_eq k id then seen else (k, at) ∷ remove id seen

unfoldable pub insert : Bytes → ℕ → Seen → Seen
insert id now [] = (id, now) ∷ []
insert id now ((k, at) ∷ seen) =
    if bytes_eq k id then (k, now) ∷ seen else (k, at) ∷ insert id now seen

abbrev pub is_recent : ℕ → ℕ → ℕ → Bool
is_recent ttl now at = ltb (now - at) ttl

-- `retain`
unfoldable pub retain : ℕ → ℕ → Seen → Seen
retain ttl now [] = []
retain ttl now ((k, at) ∷ seen) =
    let rest = retain ttl now seen in if is_recent ttl now at then (k, at) ∷ rest else rest

-- `min_by_key`: the first of the entries with the least time.
unfoldable pub older_of : Bytes × ℕ → Option (Bytes × ℕ) → Option (Bytes × ℕ)
older_of e none = some e
older_of e (some f) = if leb e.1 f.1 then some e else some f

unfoldable pub oldest : Seen → Option (Bytes × ℕ)
oldest [] = none
oldest (e ∷ seen) = older_of e (oldest seen)

-- The two early returns for an id that cannot be stored.
abbrev pub is_identified : Bytes → Bool
is_identified id = not (length id == 0) && leb (length id) 200

-- The expired entries go when the map is more than half full.
unfoldable pub pruned : DeliveryGuard → ℕ → Seen
pruned g now = if ltb (g.capacity / 2) (length g.seen) then retain g.ttl now g.seen else g.seen

abbrev pub is_repeat : ℕ → ℕ → Option ℕ → Bool
is_repeat ttl now none = false
is_repeat ttl now (some at) = is_recent ttl now at

abbrev pub without : Option (Bytes × ℕ) → Seen → Seen
without none seen = seen
without (some e) seen = remove e.0 seen

-- At the cap, the oldest is evicted.
unfoldable pub evicted : ℕ → Seen → Seen
evicted capacity seen = if leb capacity (length seen) then without (oldest seen) seen else seen

-- What follows the pruning.
abbrev pub looked_up : DeliveryGuard → Bytes → ℕ → Seen → Delivery × DeliveryGuard
looked_up g id now seen =
    if is_repeat g.ttl now (get id seen)
    then (duplicate, record g { seen = seen })
    else (fresh, record g { seen = insert id now (evicted g.capacity seen) })

unfoldable pub check : DeliveryGuard → Option Bytes → ℕ → Delivery × DeliveryGuard
check g none now = (unidentified, g)
check g (some id) now =
    if is_identified id then looked_up g id now (pruned g now) else (unidentified, g)

unfoldable pub len : DeliveryGuard → ℕ
len g = length g.seen

unfoldable pub is_empty : DeliveryGuard → Bool
is_empty g = len g == 0
