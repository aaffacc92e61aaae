-- ===== src/Requester/Examples.antt =====
-- The theorems on requests at concrete inputs.
use mini_redis.Prelude.{◌≡◌, refl, arith, some, ◌∷◌, true, []}
use mini_redis.Text.{codes, is_utf8}
use mini_redis.Stream.{ok}
use mini_redis.Database.{new_database, lookup, insert}
use mini_redis.Metrics.{new_metrics}
use mini_redis.Handler.{Answer, answer}
use mini_redis.Requester.{get_frame, set_frame, get_response, set_response, exchange, in_time}
use mini_redis.Buf.{contiguous, contiguous-IsBuf}
use mini_redis.Connection.{Connection, new_connection}
use mini_redis.Connection.Memory.{Memory, memory, memory-IsStream, arriving}
use mini_redis.Requester.Exchange.{Exchanged, exchange_lem}
use mini_redis.Requester.Agreement.{get_frame-answered, set_frame-answered}

key_text : is_utf8 (codes "key") ≡ true
unfolding is_utf8
key_text = refl

get_frame-answered_example :
    (a : Answer) × (answer (get_frame (codes "key")) new_database new_metrics ≡ some a)
    × (get_response a.reply ≡ ok (lookup (codes "key") []))
    × (a.database ≡ new_database)
get_frame-answered_example = get_frame-answered (codes "key") new_database new_metrics key_text refl

set_frame-answered_example :
    (a : Answer) × (answer (set_frame (codes "key") (codes "\r")) new_database new_metrics ≡ some a)
    × (set_response a.reply ≡ ok tt)
    × (a.database ≡ record new_database { entries = insert (codes "key") (codes "\r") [] })
set_frame-answered_example =
    set_frame-answered (codes "key") (codes "\r") new_database new_metrics key_text refl

-- A server whose reply to GET arrives in two pieces.
abbrev replying : Connection Memory
replying = new_connection (arriving (codes "$1\r" ∷ codes "\n7\r\n" ∷ []))

exchange_lem_example :
    Exchanged memory memory-IsStream get_response
      (get_frame (codes "key"))
      replying
      (exchange contiguous memory get_response (get_frame (codes "key")) in_time in_time replying)
exchange_lem_example =
    exchange_lem memory memory-IsStream contiguous contiguous-IsBuf get_response
      (get_frame (codes "key")) in_time in_time replying (omega arith)
