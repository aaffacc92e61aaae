-- ===== src/Handler/Examples.antt =====
-- The theorems on the handler over the network in memory.
use mini_redis.Prelude.{◌≡◌, refl, some, [], ◌∷◌, arith, ◌≤◌, length, List, ◌++◌}
use mini_redis.Text.{
  Bytes, codes, is_utf8, eq_ignore_ascii_case, to_ascii_lowercase, usize_to_string,
}
use mini_redis.Prelude.Int.{i64_max}
use mini_redis.Buf.{contiguous, contiguous-IsBuf}
use mini_redis.Frame.{Frame, error, array, bulk, nil, cons}
use mini_redis.Database.{new_database, lookup}
use mini_redis.Command
use mini_redis.Command.{from_arguments, Command, get, set}
use mini_redis.Command.Parse
use mini_redis.Frame.Encode.{IsSendable, encode}
use mini_redis.Metrics.{new_metrics, fetch_inc}
use mini_redis.Connection.{new_connection}
use mini_redis.Connection.Memory.{
  Memory, memory, memory-IsStream, arriving, memory-IsReliable, memory-IsOpen,
}
use mini_redis.Handler.{
  Handler, read_completed, shut_down, Answer, answer, answer_command, turn, run, handle_all,
}
use mini_redis.Handler.Answers.{Answers, answer_lem}
use mini_redis.Handler.Replies.{answer-IsSendable}
use mini_redis.Command.Parse.Exact.{carries_bulk}
use mini_redis.Command.Requests.{requests_get, requests_set}
use mini_redis.Command.Apply.{store_of, obey_all}
use mini_redis.Requester.{get_frame, set_frame}
use mini_redis.Session.Sizes.{get_frame-IsSendable, set_frame-IsSendable}
use mini_redis.Handler.Batch.{
  Sends, sends_none, sends_more, encode_each, reads_of, Answered, handle_all_lem,
}
use mini_redis.Handler.Turns.{IsReady}
use mini_redis.Handler.Runs.{Settles, run_lem}
use mini_redis.Handler.Serves.{Serves, turn_lem}

-- A client that sends a SET, a GET and no command.
abbrev client : Handler Memory
client = record {
  connection = new_connection (
      arriving (
        codes "*3\r\n+set\r\n+a\r\n$1\r\n7\r\n*2\r\n"
        ∷ codes "$3\r\nGET\r\n$1\r\na\r\n+PING\r\n"
        ∷ []));
  database = new_database;
  metrics = new_metrics;
}

client-IsReady : IsReady client
client-IsReady = record { sound = refl; small = omega arith }

turn_lem_example :
    Serves memory memory-IsStream client (turn contiguous memory read_completed client)
turn_lem_example = turn_lem memory memory-IsStream contiguous contiguous-IsBuf client client-IsReady

run_lem_example :
    Settles memory memory-IsStream client
      (read_completed ∷ read_completed ∷ read_completed ∷ shut_down ∷ [])
      (run contiguous memory
        (read_completed ∷ read_completed ∷ read_completed ∷ shut_down ∷ [])
        client)
run_lem_example =
    run_lem memory contiguous contiguous-IsBuf memory-IsStream
      (read_completed ∷ read_completed ∷ read_completed ∷ shut_down ∷ []) client client-IsReady
      (omega arith)

abbrev get_a : Frame
get_a = array (cons (bulk (codes "gEt")) (cons (bulk (codes "a")) nil))

answer_lem_example :
    (a : Answer) × (answer get_a new_database new_metrics ≡ some a)
    × Answers get_a new_database new_metrics a
answer_lem_example = answer_lem get_a new_database new_metrics refl

nothing_stored : (k v : Bytes) → lookup k [] ≡ some v → length v ≤ i64_max
unfolding lookup
nothing_stored k v e = cc

refused_array :
    answer (array nil) new_database new_metrics
    ≡ some (record {
      reply = error (codes "No more command arguments");
      database = new_database;
      metrics = record new_metrics { requests_received = 1; command_parse_errors = 1 };
    })
unfolding answer answer_command Command.from_frame from_arguments Parse.from_frame Parse.next_string
    Parse.next_bytes Parse.next_bytes_of Parse.error_text fetch_inc
refused_array = refl

answer-IsSendable_example : IsSendable 0 (error (codes "No more command arguments"))
answer-IsSendable_example =
    answer-IsSendable (array nil) new_database new_metrics
      (record {
        reply = error (codes "No more command arguments");
        database = new_database;
        metrics = record new_metrics { requests_received = 1; command_parse_errors = 1 };
      })
      refl nothing_stored refused_array

-- A SET and the GET of its key, cut within the first.
abbrev batch : List Frame
batch = set_frame (codes "a") (codes "7") ∷ get_frame (codes "a") ∷ []

abbrev batch_commands : List Command
batch_commands = set (codes "a") (codes "7") ∷ get (codes "a") ∷ []

abbrev batching : Handler Memory
batching = record client {
  connection = new_connection (
      arriving (
        codes "*3\r\n$3\r\nSET\r\n$1\r\na\r\n$1"
        ∷ codes "\r\n7\r\n*2\r\n$3\r\nGET\r\n$1\r\na\r\n+"
        ∷ []));
}

batch-Sends : Sends batch batch_commands
unfolding is_utf8 eq_ignore_ascii_case to_ascii_lowercase encode usize_to_string
batch-Sends =
    sends_more (requests_set carries_bulk refl refl carries_bulk refl carries_bulk)
      (set_frame-IsSendable (codes "a") (codes "7") (omega arith)) (omega arith)
      (sends_more (requests_get carries_bulk refl refl carries_bulk refl)
        (get_frame-IsSendable (codes "a") (omega arith)) (omega arith) sends_none)

batching-IsReady : IsReady batching
batching-IsReady = record { sound = refl; small = omega arith }

batching_ahead :
    [] ++ memory-IsReliable.pending batching.connection.stream ≡ encode_each batch ++ codes "+"
unfolding memory-IsReliable encode usize_to_string
batching_ahead = refl

batching_flushed :
    memory-IsStream.sent batching.connection.stream
    ≡ memory-IsStream.written batching.connection.stream
unfolding memory-IsStream
batching_flushed = refl

handle_all_lem_example :
    Answered memory memory-IsStream memory-IsReliable batching
      (handle_all contiguous memory (reads_of batch) batching)
      (obey_all batch_commands (store_of new_database)).0
      (codes "+")
      (obey_all batch_commands (store_of new_database)).1
handle_all_lem_example =
    handle_all_lem contiguous memory contiguous-IsBuf memory-IsStream memory-IsReliable batch
      batch_commands batching (codes "+") memory-IsOpen batch-Sends batching-IsReady
      batching_flushed batching_ahead
