-- ===== src/Handler/Tests.antt =====
-- The tests of src/handler.rs, over the network in memory.
use mini_redis.Prelude.{ℕ, ◌≡◌, refl, Bool, true, false, ◌&&◌, ◌==◌, List, [], ◌∷◌}
use mini_redis.Text.{
  Bytes, codes, eq_ignore_ascii_case, to_ascii_lowercase, bytes_eq, usize_to_string, i64_to_string,
}
use mini_redis.Buf.{contiguous}
use mini_redis.Frame.Tests.{opened_parse}
use mini_redis.Frame
use mini_redis.Stream.{err, StreamOps}
use mini_redis.Database
use mini_redis.Database.{new_database, lookup, insert, lock}
use mini_redis.Command.{select, get_from_parse, set_from_parse, from_arguments, apply}
use mini_redis.Command
use mini_redis.Command.Parse.{
  next_string, next_bytes, next_bytes_of, bytes_of, text_of, finish, finish_of,
}
use mini_redis.Command.Parse
use mini_redis.Metrics.{Metrics, new_metrics, fetch_inc, fetch_dec}
use mini_redis.Connection.{
  failure_text, read_frame, read_rounds, parse_frame, take_frame, after_parse, after_read,
  write_frame, write_data, write_line,
}
use mini_redis.Connection.Memory.{Memory, memory, arriving, read_chunk}
use mini_redis.Handler.{
  Handler, new_handler, read_completed, Turn, running, finished, gave_error, unwound, out_of_fuel,
  answer, answer_command, answer_get, answer_set, count_lookup, after_write, respond, after_frame,
  turn, drop_guard, ending, handle_all, run,
}

-- `run` ends with an error, or with success, and leaves these counters.
abbrev is_err : (Metrics → Bool) → Turn Memory (Unit {0}) → Bool
is_err p (gave_error e h) = p h.metrics
is_err p (running h) = false
is_err p (finished h) = false
is_err p (unwound h) = false
is_err p out_of_fuel = false

abbrev is_ok : (Metrics → Bool) → Turn Memory (Unit {0}) → Bool
is_ok p (finished h) = p h.metrics
is_ok p (running h) = false
is_ok p (gave_error e h) = false
is_ok p (unwound h) = false
is_ok p out_of_fuel = false

abbrev counts : (active requests responses : ℕ) → Metrics → Bool
counts active requests responses m =
    (m.active_connections == active)
    && ((m.requests_received == requests) && (m.command_responses_written == responses))

abbrev handler : List Bytes → Handler Memory
handler chunks = new_handler (arriving chunks) new_database new_metrics

abbrev test_handler_read_error_releases_active_connection : Bool
test_handler_read_error_releases_active_connection =
    is_err (counts 0 0 0)
      (run contiguous memory (read_completed ∷ []) (handler (codes ":a\r\n" ∷ [])))

abbrev test_handler_eof_releases_active_connection : Bool
test_handler_eof_releases_active_connection =
    is_ok (counts 0 0 0) (run contiguous memory (read_completed ∷ []) (handler []))

-- A stream whose write half is shut down: the buffered bytes cannot be flushed.
abbrev shut_memory : StreamOps Memory (Unit {0})
shut_memory = record memory { flush = λ s. (err tt, s) }

abbrev test_handler_write_error_increments_request_metrics : Bool
test_handler_write_error_increments_request_metrics = is_err (counts 0 1 0) (
    run contiguous shut_memory (read_completed ∷ [])
      (handler (codes "*2\r\n$3\r\nGET\r\n$3\r\nkey\r\n" ∷ [])))

opened_run : Unit {0}
unfolding opened_parse run handle_all ending drop_guard turn after_frame respond after_write
    read_frame read_rounds parse_frame take_frame after_parse after_read read_chunk write_frame
    write_data write_line usize_to_string i64_to_string fetch_inc fetch_dec failure_text
    Frame.error_text
opened_run = tt

opened_answer : Unit {0}
unfolding opened_run answer answer_command answer_get answer_set Command.from_frame from_arguments
    select get_from_parse set_from_parse Parse.from_frame next_string next_bytes next_bytes_of
    bytes_of text_of finish finish_of eq_ignore_ascii_case to_ascii_lowercase apply lock
    Database.get Database.set lookup insert bytes_eq count_lookup
opened_answer = tt

test_handler_read_error_releases_active_connection_passes :
    test_handler_read_error_releases_active_connection ≡ true
unfolding opened_run
test_handler_read_error_releases_active_connection_passes = refl

test_handler_eof_releases_active_connection_passes :
    test_handler_eof_releases_active_connection ≡ true
unfolding opened_run
test_handler_eof_releases_active_connection_passes = refl

test_handler_write_error_increments_request_metrics_passes :
    test_handler_write_error_increments_request_metrics ≡ true
unfolding opened_answer
test_handler_write_error_increments_request_metrics_passes = refl
