-- ===== src/Proto/Conn/Streams.antt =====
-- crates/jet-proto/src/conn.rs: the two sides never allocate one stream identifier.
use jetrun.Prelude.{
  ◌-◌, ◌*◌, ◌∙◌, ℕ, zero, suc, ◌+◌, ◌%◌, ◌^◌, ◌≤◌, ◌<◌, ◌≡◌, refl, ◌≢◌, Bool, true, false, arith,
  if◌then◌else◌,
}
use Prim.Native.Nat.{max}
use jetrun.Proto.Conn.{JrpConn, server, client, next_stream}

-- The connection after a number of allocations.
unfoldable pub after : ℕ → JrpConn → JrpConn
after zero conn = conn
after (suc n) conn = after n (next_stream conn).1

abbrev side : Bool → ℕ
side true = 1
side false = 0

abbrev pub IsOfSide : Bool → JrpConn → Type 0
IsOfSide b conn =
    (conn.client_side ≡ b)
    × (conn.next_stream_id % 2 ≡ side b)
    × (1 ≤ conn.next_stream_id)
    × (conn.next_stream_id < 2 ^ 32)

next_id :
    (b : Bool) (id : ℕ)
    → id % 2 ≡ side b
    → 1 ≤ id
    → id < 2 ^ 32
    → (max ((id + 2) % 2 ^ 32) (if b then 1 else 2) % 2 ≡ side b)
      × (1 ≤ max ((id + 2) % 2 ^ 32) (if b then 1 else 2))
      × (max ((id + 2) % 2 ^ 32) (if b then 1 else 2) < 2 ^ 32)
next_id true id h one lt = (omega arith, omega arith, omega arith)
next_id false id h one lt = (omega arith, omega arith, omega arith)

next_stream-IsOfSide :
    (b : Bool) (conn : JrpConn) → IsOfSide b conn → IsOfSide b (next_stream conn).1
unfolding next_stream
next_stream-IsOfSide b conn (c, h, one, lt) =
    let (x, y, z) = next_id b conn.next_stream_id h one lt in (c, rw c x, rw c y, rw c z)

after-IsOfSide : (b : Bool) (n : ℕ) (conn : JrpConn) → IsOfSide b conn → IsOfSide b (after n conn)
unfolding after
after-IsOfSide b zero conn h = h
after-IsOfSide b (suc n) conn h = after-IsOfSide b n _ (next_stream-IsOfSide b conn h)

apart : (a b : ℕ) → a % 2 ≡ 1 → b % 2 ≡ 0 → a ≢ b
apart a b odd even e = omega arith

-- However many streams each side has opened, past the wrap-around of the counter too: the next
-- identifiers of the client and of the server are different, and neither is zero.
pub next_stream-apart :
    (m n : ℕ)
    → ((next_stream (after m client)).0 ≢ (next_stream (after n server)).0)
      × (1 ≤ (next_stream (after m client)).0)
      × (1 ≤ (next_stream (after n server)).0)
unfolding next_stream
next_stream-apart m n =
    let (c, odd, one, lt) =
      after-IsOfSide true m client (refl, omega arith, omega arith, omega arith) in
    let (s, even, one', lt') =
      after-IsOfSide false n server (refl, omega arith, omega arith, omega arith) in
    (λ e. apart _ _ odd even e, one, one')

-- Before the counter wraps.
step_id :
    (b : Bool) (id : ℕ)
    → 1 ≤ id
    → id + 2 < 2 ^ 32
    → max ((id + 2) % 2 ^ 32) (if b then 1 else 2) ≡ id + 2
step_id true id one lt = omega arith
step_id false id one lt = omega arith

after-id :
    (n : ℕ) (conn : JrpConn)
    → 1 ≤ conn.next_stream_id
    → conn.next_stream_id + 2 * n < 2 ^ 32
    → (after n conn).next_stream_id ≡ conn.next_stream_id + 2 * n
unfolding after next_stream
after-id zero conn one lt = omega arith
after-id (suc n) conn one lt =
    let step = step_id conn.client_side conn.next_stream_id one (omega arith) in
    after-id n (next_stream conn).1 (omega (arith, step, one)) (omega (arith, step, lt))
    ∙ omega (arith, step)

-- Below 2^31 allocations less one, the client's identifiers are 1, 3, 5 and so on, and the server's 2,
-- 4, 6 and so on: no side hands out one of its own twice.
pub next_stream-counts :
    (n : ℕ)
    → n < 2 ^ 31 - 1
    → ((next_stream (after n client)).0 ≡ 1 + 2 * n)
      × ((next_stream (after n server)).0 ≡ 2 + 2 * n)
unfolding next_stream
next_stream-counts n h =
    (after-id n client (omega arith) (omega arith), after-id n server (omega arith) (omega arith))
