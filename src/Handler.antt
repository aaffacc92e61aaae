-- ===== src/Handler.antt =====
-- src/handler.rs: the loop of one connection. Each turn of it is one choice of `tokio::select!`.
-- The metrics and the database are shared; here they are those that the turn finds and leaves.
pub mod Answers
pub mod Turns
pub mod Runs
pub mod Serves
pub mod Serviced
pub mod Replies
pub mod Pipeline
pub mod Batch
pub mod Shared
pub mod Complete
mod Tests
mod Examples
use mini_redis.Prelude.{Option, none, some, List, [], ◌∷◌}
use mini_redis.Buf.{BufOps}
use mini_redis.Frame.{Frame, simple, error, integer, bulk, array, null}
use mini_redis.Stream.{Reply, ok, err, StreamOps}
use mini_redis.Database.{Database}
use mini_redis.Command.{Command, get, set, from_frame, apply}
use mini_redis.Command.Parse
use mini_redis.Connection.{
  Connection, Failure, io, failure_text, Run, returned, failed, read_frame, write_frame,
  new_connection,
}
use mini_redis.Connection
use mini_redis.Metrics.{
  Metrics, inc_active_connections, dec_active_connections, inc_requests_received,
  inc_command_responses_written, inc_cache_hits, inc_cache_misses, inc_command_parse_errors,
}

-- `Handler`, without its receiver, sender, permit and duration, which it only holds.
pub record Handler (S : Type 0) : Type 0 where
  pub connection : Connection S
  pub database : Database
  pub metrics : Metrics

-- `Handler::new`.
abbrev pub new_handler : {S : Type 0} → S → Database → Metrics → Handler S
new_handler stream database metrics = record {
  connection = new_connection stream;
  database = database;
  metrics = metrics;
}

-- The branch of `select!` that completes: the read, its timeout, or the receiver of the shutdown.
pub data Choice : Type 0 where
  read_completed timed_out shut_down : Choice

-- How `run` stands: in its loop, ended with `Ok` or an error, or unwinding from a panic.
pub data Turn (S E : Type 0) : Type 0 where
  running : Handler S → Turn S E
  finished : Handler S → Turn S E
  gave_error : Failure E → Handler S → Turn S E
  unwound : Handler S → Turn S E
  out_of_fuel : Turn S E

-- The match on the reply to GET.
unfoldable pub count_lookup : Frame → Metrics → Metrics
count_lookup (bulk s) m = inc_cache_hits m
count_lookup null m = inc_cache_misses m
count_lookup (simple s) m = m
count_lookup (error s) m = m
count_lookup (integer z) m = m
count_lookup (array fs) m = m

-- The reply, and the database and the metrics behind it.
pub record Answer : Type 0 where
  pub reply : Frame
  pub database : Database
  pub metrics : Metrics

unfoldable pub answer_get : Option (Frame × Database) → Metrics → Option Answer
answer_get none m = none
answer_get (some (x, db)) m = some (record { reply = x; database = db; metrics = count_lookup x m })

unfoldable pub answer_set : Option (Frame × Database) → Metrics → Option Answer
answer_set none m = none
answer_set (some (x, db)) m = some (record { reply = x; database = db; metrics = m })

unfoldable pub answer_command : Parse.Result Command → Database → Metrics → Option Answer
answer_command (Parse.ok (get key)) db m = answer_get (apply (get key) db) m
answer_command (Parse.ok (set key value)) db m = answer_set (apply (set key value) db) m
answer_command (Parse.err e) db m = some (record {
  reply = error (Parse.error_text e);
  database = db;
  metrics = inc_command_parse_errors m;
})

-- Steps 5 and 6 of `run`; `none` stands for a panic at the mutex.
unfoldable pub answer : Frame → Database → Metrics → Option Answer
answer x db m = answer_command (from_frame x) db (inc_requests_received m)

module _ {S E : Type 0} (net : StreamOps S E) where
  -- Steps 7 and 8.
  unfoldable pub after_write : Connection S → Answer → Reply E (Unit {0}) × S → Turn S E
  after_write c a (ok u, s) = running (record {
    connection = record c { stream = s };
    database = a.database;
    metrics = inc_command_responses_written a.metrics;
  })
  after_write c a (err e, s) =
      gave_error (io e) (record {
        connection = record c { stream = s };
        database = a.database;
        metrics = a.metrics;
      })

  unfoldable pub respond : Handler S → Option Answer → Turn S E
  respond h none = unwound (record h { metrics = inc_requests_received h.metrics })
  respond h (some a) = after_write h.connection a (write_frame net a.reply h.connection.stream)

  -- Steps 4 to 8, behind a read that completed.
  unfoldable pub after_frame : Handler S → Run S E (Option Frame) → Turn S E
  after_frame h (returned (some x) c) =
      respond (record h { connection = c }) (answer x h.database h.metrics)
  after_frame h (returned none c) = finished (record h { connection = c })
  after_frame h (failed e c) =
      let report = write_frame net (error (failure_text net.error_text e)) c.stream in
      gave_error e (record h { connection = record c { stream = report.1 } })
  after_frame h Connection.panicked = unwound h
  after_frame h Connection.out_of_fuel = out_of_fuel

module _ {S E : Type 0} (ops : BufOps) (net : StreamOps S E) where
  -- One turn of the loop. The read that a timeout or a shutdown cancels may have taken bytes from
  -- the stream; the loop ends there, and nothing reads the connection again.
  unfoldable pub turn : Choice → Handler S → Turn S E
  turn read_completed h = after_frame net h (read_frame ops net h.connection)
  turn timed_out h = finished h
  turn shut_down h = finished h

-- The guard is dropped wherever `run` ends.
unfoldable pub drop_guard : {S : Type 0} → Handler S → Handler S
drop_guard h = record h { metrics = dec_active_connections h.metrics }

unfoldable pub ending : {S E : Type 0} → Turn S E → Turn S E
unfolding drop_guard
ending (running h) = running h
ending (finished h) = finished (drop_guard h)
ending (gave_error e h) = gave_error e (drop_guard h)
ending (unwound h) = unwound (drop_guard h)
ending out_of_fuel = out_of_fuel

abbrev pub on_running : {S E : Type 0} → Turn S E → (Handler S → Turn S E) → Turn S E
on_running (running h) k = k h
on_running (finished h) k = finished h
on_running (gave_error e h) k = gave_error e h
on_running (unwound h) k = unwound h
on_running out_of_fuel k = out_of_fuel

module _ {S E : Type 0} (ops : BufOps) (net : StreamOps S E) where
  -- The loop over the choices made so far, and `run` with its guard.
  unfoldable pub handle_all : List Choice → Handler S → Turn S E
  handle_all [] h = running h
  handle_all (choice ∷ later) h = on_running (turn ops net choice h) (handle_all later)

  unfoldable pub run : List Choice → Handler S → Turn S E
  run choices h =
      ending (handle_all choices (record h { metrics = inc_active_connections h.metrics }))
