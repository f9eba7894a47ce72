-- ===== src/Proto/Conn/Tests.antt =====
-- crates/jet-proto/src/conn.rs: allocations at the start, and where the counter wraps.
use jetrun.Prelude.{◌+◌, ◌-◌, ◌*◌, ◌^◌, ◌≤◌, ◌<◌, ◌≡◌, refl, ◌≢◌, true, arith}
use jetrun.Proto.Conn.{JrpConn, server, client, next_stream, peer_supports}
use jetrun.Proto.Conn.Streams.{after, next_stream-apart, next_stream-counts}

abbrev last_client : JrpConn
last_client = record client { next_stream_id = 2 ^ 32 - 1 }

abbrev last_server : JrpConn
last_server = record server { next_stream_id = 2 ^ 32 - 2 }

wraps :
    ((next_stream last_client).1.next_stream_id ≡ 1)
    × ((next_stream last_server).1.next_stream_id ≡ 2)
unfolding next_stream
wraps = (refl, refl)

supports : peer_supports (record client { peer_caps = 0b0110 }) 0b0100 ≡ true
unfolding peer_supports
supports = refl

next_stream-apart_example :
    ((next_stream (after 3 client)).0 ≢ (next_stream (after 5 server)).0)
    × (1 ≤ (next_stream (after 3 client)).0)
    × (1 ≤ (next_stream (after 5 server)).0)
next_stream-apart_example = next_stream-apart 3 5

few : 3 < 2 ^ 31 - 1
few = omega arith

next_stream-counts_example :
    ((next_stream (after 3 client)).0 ≡ 1 + 2 * 3) × ((next_stream (after 3 server)).0 ≡ 2 + 2 * 3)
next_stream-counts_example = next_stream-counts 3 few
