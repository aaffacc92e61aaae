-- ===== src/Client/Examples.antt =====
-- The theorems on the client over the network in memory.
use mini_redis.Stream.{ok}
use mini_redis.Prelude.{none, some, ◌≡◌, refl, ◌++◌, arith}
use mini_redis.Text.{codes, Bytes}
use mini_redis.Buf.{contiguous, contiguous-IsBuf}
use mini_redis.Database.{lookup, insert}
use mini_redis.Connection.Memory.{memory, memory-IsStream, memory-IsReliable}
use mini_redis.Requester.{in_time}
use mini_redis.Session.Scenario.{
  key, held, requester, requested, waiting, wrote_get, served, served_get, key_text, small_get,
  small_reply, get-Joined, setter, set_requested, set_waiting, set_served, wrote_set, served_set,
  small_set, set-Joined,
}
use mini_redis.Client.{get, set, printed, client_main}
use mini_redis.Client.Prints.{client_main-get, client_main-set}

-- A `Debug` format.
abbrev quoted : Bytes → Bytes
quoted s = codes "\"" ++ (s ++ codes "\"")

client_main-get_example :
    client_main quoted contiguous memory (get key) in_time in_time in_time (ok requester.stream)
    ≡ printed (elim (lookup key held.entries) [
      | none ↦ codes "(nil)\n"
      | some value ↦ quoted value ++ codes "\n"
    ])
client_main-get_example =
    client_main-get quoted contiguous memory memory contiguous-IsBuf memory-IsStream memory-IsStream
      memory-IsReliable memory-IsReliable requester.stream requested waiting served key
      (record { sound = refl; small = omega arith }) key_text small_get small_reply wrote_get
      served_get get-Joined

client_main-set_example :
    (client_main quoted contiguous memory
        (set key (codes "8"))
        in_time
        in_time
        in_time
        (ok setter.stream)
      ≡ printed (codes "OK\n"))
    × (set_served.database ≡ record held { entries = insert key (codes "8") held.entries })
client_main-set_example =
    client_main-set quoted contiguous memory memory contiguous-IsBuf memory-IsStream memory-IsStream
      memory-IsReliable memory-IsReliable setter.stream set_requested set_waiting set_served key
      (codes "8") (record { sound = refl; small = omega arith }) key_text small_set wrote_set
      served_set set-Joined
