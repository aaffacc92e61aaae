-- ===== src/Session/Scenario.antt =====
-- A requester and a handler over the network in memory, and what they send.
use mini_redis.Stream.{ok}
use mini_redis.Command.{get_from_parse, set_from_parse, from_arguments, select, apply}
use mini_redis.Command
use mini_redis.Command.Parse.{
  next_string, next_bytes, next_bytes_of, bytes_of, text_of, finish, finish_of,
}
use mini_redis.Command.Parse
use mini_redis.Database
use mini_redis.Database.{lock, new_database, Database, lookup, insert}
use mini_redis.Metrics.{fetch_inc, new_metrics}
use mini_redis.Handler.{
  after_frame, respond, after_write, answer, answer_command, answer_get, answer_set, count_lookup,
  Handler, read_completed, running, turn,
}
use mini_redis.Connection.{
  write_data, write_line, read_rounds, parse_frame, take_frame, after_parse, after_read, Connection,
  new_connection, read_frame, write_frame,
}
use mini_redis.Text.{
  eq_ignore_ascii_case, to_ascii_lowercase, bytes_eq, codes, is_utf8, usize_to_string, Bytes,
}
use mini_redis.Config.{max_buffered_bytes}
use mini_redis.Prelude.{length, ◌≤◌, ◌≡◌, refl, [], ◌∷◌, arith, true}
use mini_redis.Frame.Tests.{opened_parse}
use mini_redis.Buf.{contiguous}
use mini_redis.Frame.Encode.{encode}
use mini_redis.Command.Apply.{stored}
use mini_redis.Connection.Memory.{
  Memory, memory, memory-IsStream, memory-IsReliable, arriving, read_chunk,
}
use mini_redis.Requester.{get_frame, set_frame}
use mini_redis.Session.{Joined}

abbrev pub key : Bytes
key = codes "k"

abbrev pub held : Database
held = record new_database { entries = insert key (codes "7") [] }

abbrev pub request : Bytes
request = codes "*2\r\n$3\r\nGET\r\n$1\r\nk\r\n"

abbrev pub reply : Bytes
reply = codes "$1\r\n7\r\n"

abbrev pub requester : Connection Memory
requester = new_connection (arriving (codes "$1\r" ∷ codes "\n7\r\n" ∷ []))

abbrev pub requested : Memory
requested = record requester.stream { written = request; sent = request }

abbrev pub waiting : Handler Memory
waiting = record {
  connection = new_connection (arriving (request ∷ []));
  database = held;
  metrics = new_metrics;
}

opened_network : Unit {0}
unfolding opened_parse write_frame write_data write_line encode usize_to_string read_frame
    read_rounds parse_frame take_frame after_parse after_read read_chunk
opened_network = tt

opened_handler : Unit {0}
unfolding opened_network turn after_frame respond after_write answer answer_command answer_get
    answer_set Command.from_frame from_arguments select get_from_parse set_from_parse
    Parse.from_frame next_string next_bytes next_bytes_of bytes_of text_of finish finish_of
    eq_ignore_ascii_case to_ascii_lowercase apply lock Database.get Database.set lookup insert
    bytes_eq count_lookup fetch_inc
opened_handler = tt

pub wrote_get : write_frame memory (get_frame key) requester.stream ≡ (ok tt, requested)
unfolding opened_network
wrote_get = refl

abbrev pub served : Handler Memory
served = record {
  connection =
      new_connection
        (record { incoming = [] ∷ []; received = request; written = reply; sent = reply });
  database = held;
  metrics = record new_metrics {
    requests_received = 1;
    command_responses_written = 1;
    cache_hits = 1;
  };
}

pub served_get : turn contiguous memory read_completed waiting ≡ running served
unfolding opened_handler
served_get = refl

pub key_text : is_utf8 key ≡ true
unfolding is_utf8
key_text = refl

pub small_get : length (encode (get_frame key)) ≤ max_buffered_bytes
unfolding encode usize_to_string
small_get = omega arith

pub small_reply : length (encode (stored (lookup key held.entries))) ≤ max_buffered_bytes
unfolding encode usize_to_string lookup bytes_eq insert
small_reply = omega arith

pub get-Joined :
    Joined memory-IsStream memory-IsStream memory-IsReliable memory-IsReliable requester requested
      waiting served
unfolding memory-IsStream memory-IsReliable
get-Joined = record {
  client_new = refl;
  client_silent = refl;
  server_new = refl;
  server_silent = refl;
  up = refl;
  down = refl;
}

abbrev pub set_request : Bytes
set_request = codes "*3\r\n$3\r\nSET\r\n$1\r\nk\r\n$1\r\n8\r\n"

abbrev pub setter : Connection Memory
setter = new_connection (arriving (codes "+" ∷ codes "OK\r\n" ∷ []))

abbrev pub set_requested : Memory
set_requested = record setter.stream { written = set_request; sent = set_request }

abbrev pub set_waiting : Handler Memory
set_waiting = record waiting { connection = new_connection (arriving (set_request ∷ [])) }

abbrev pub set_served : Handler Memory
set_served = record {
  connection = new_connection (record {
    incoming = [] ∷ [];
    received = set_request;
    written = codes "+OK\r\n";
    sent = codes "+OK\r\n";
  });
  database = record new_database { entries = insert key (codes "8") held.entries };
  metrics = record new_metrics { requests_received = 1; command_responses_written = 1 };
}

pub wrote_set :
    write_frame memory (set_frame key (codes "8")) setter.stream ≡ (ok tt, set_requested)
unfolding opened_network
wrote_set = refl

pub served_set : turn contiguous memory read_completed set_waiting ≡ running set_served
unfolding opened_handler
served_set = refl

pub small_set : length (encode (set_frame key (codes "8"))) ≤ max_buffered_bytes
unfolding encode usize_to_string
small_set = omega arith

pub set-Joined :
    Joined memory-IsStream memory-IsStream memory-IsReliable memory-IsReliable setter set_requested
      set_waiting set_served
unfolding memory-IsStream memory-IsReliable
set-Joined = record {
  client_new = refl;
  client_silent = refl;
  server_new = refl;
  server_silent = refl;
  up = refl;
  down = refl;
}
