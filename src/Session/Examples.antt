-- ===== src/Session/Examples.antt =====
-- The theorems on a requester and a handler over the network in memory.
use mini_redis.Prelude.{◌≡◌, refl, ◌++◌, [], arith}
use mini_redis.Text.{codes}
use mini_redis.Buf.{contiguous, contiguous-IsBuf}
use mini_redis.Database.{lookup, insert}
use mini_redis.Connection.{Connection}
use mini_redis.Connection.Memory.{Memory, memory, memory-IsStream, memory-IsReliable}
use mini_redis.Requester.{got, in_time, get, set}
use mini_redis.Session.RoundTrip.{get_round_trip, set_round_trip}
use mini_redis.Session.Scenario.{
  key, held, requester, requested, waiting, wrote_get, served, served_get, key_text, small_get,
  small_reply, get-Joined, setter, set_requested, set_waiting, set_served, wrote_set, served_set,
  small_set, set-Joined,
}

get_round_trip_example :
    (c : Connection Memory) × (get contiguous memory key in_time in_time requester
      ≡ got (lookup key held.entries) c)
    × (c.buffer ++ memory-IsReliable.pending c.stream ≡ [])
    × (served.database ≡ held)
get_round_trip_example =
    get_round_trip contiguous memory memory contiguous-IsBuf memory-IsStream memory-IsStream
      memory-IsReliable memory-IsReliable requester requested waiting served key
      (record { sound = refl; small = omega arith }) key_text small_get small_reply wrote_get
      served_get get-Joined

set_round_trip_example :
    (c : Connection Memory) × (set contiguous memory key (codes "8") in_time in_time setter
      ≡ got tt c)
    × (c.buffer ++ memory-IsReliable.pending c.stream ≡ [])
    × (set_served.database ≡ record held { entries = insert key (codes "8") held.entries })
set_round_trip_example =
    set_round_trip contiguous memory memory contiguous-IsBuf memory-IsStream memory-IsStream
      memory-IsReliable memory-IsReliable setter set_requested set_waiting set_served key
      (codes "8") (record { sound = refl; small = omega arith }) key_text small_set wrote_set
      served_set set-Joined
