-- ===== src/Handler/Shared/Examples.antt =====
-- The theorems on several handlers, for two of them.
use mini_redis.Prelude.{ℕ, ◌≡◌, refl, some, List, [], ◌∷◌, ◌++◌}
use mini_redis.Text.{codes, eq_ignore_ascii_case, to_ascii_lowercase, from_utf8, is_utf8, bytes_eq}
use mini_redis.Frame.{Frame, bulk, simple}
use mini_redis.Database
use mini_redis.Database.{Database, new_database, lookup, insert, lock}
use mini_redis.Command.{get, set, select, get_from_parse, set_from_parse, from_arguments, apply}
use mini_redis.Command
use mini_redis.Command.Parse.{
  next_string, next_bytes, next_bytes_of, bytes_of, text_of, finish, finish_of,
}
use mini_redis.Command.Parse
use mini_redis.Metrics.{new_metrics, fetch_inc, fetch_dec}
use mini_redis.Requester.{get_frame, set_frame}
use mini_redis.Handler.{count_lookup}
use mini_redis.Handler.Shared.{
  idle, dropped, StageEvent, reads, proceeds, replied, reply_failed, after_apply, execute,
  stage_step, Shared, step_at, Applied, applied_by, applies, stage_at, held_reply, Schedule,
  interleave,
}
use mini_redis.Handler.Shared.Linear.{Serializes, interleave-Serializes}
use mini_redis.Handler.Shared.Sends.{held_by, sent_by, given, mine, Unsent, interleave-Sends}
use mini_redis.Handler.Shared.Gauges.{Gauges, interleave-Gauges}

abbrev at : ℕ → StageEvent → Schedule
at i e = record { handler = i; event = e }

abbrev seven : Database
seven = record new_database { entries = insert (codes "a") (codes "7") [] }

abbrev eight : Database
eight = record new_database { entries = insert (codes "a") (codes "8") seven.entries }

-- The second handler stores a value between the first one's frame and its lookup, and fails to reply.
abbrev race : List Schedule
race =
    at 0 (reads (get_frame (codes "a")))
    ∷ at 1 (reads (set_frame (codes "a") (codes "8")))
    ∷ at 1 proceeds
    ∷ at 0 proceeds
    ∷ at 1 reply_failed
    ∷ at 0 proceeds
    ∷ at 0 replied
    ∷ []

abbrev begun : Shared
begun = record {
  stages = idle ∷ idle ∷ [];
  database = seven;
  metrics = record new_metrics { active_connections = 2 };
}

abbrev raced : Shared
raced = record {
  stages = idle ∷ dropped ∷ [];
  database = eight;
  metrics = record new_metrics {
    active_connections = 1;
    requests_received = 2;
    command_responses_written = 1;
    cache_hits = 1;
  };
}

abbrev race_log : List Applied
race_log =
    record { command = set (codes "a") (codes "8"); reply = some (simple (codes "OK")) }
    ∷ record { command = get (codes "a"); reply = some (bulk (codes "8")) }
    ∷ []

opened_commands : Unit {0}
unfolding Command.from_frame from_arguments select get_from_parse set_from_parse Parse.from_frame
    next_string next_bytes next_bytes_of bytes_of text_of finish finish_of eq_ignore_ascii_case
    to_ascii_lowercase from_utf8 is_utf8 apply lock Database.get Database.set lookup insert bytes_eq
    count_lookup fetch_inc fetch_dec
opened_commands = tt

race_ends : interleave race begun ≡ some (race_log, raced)
unfolding opened_commands interleave step_at stage_at held_reply applies applied_by stage_step
    execute after_apply
race_ends = refl

begun-Gauges : Gauges begun
begun-Gauges = record { active_are = refl; requests_are = refl }

interleave-Serializes_example : Serializes race_log seven eight
interleave-Serializes_example = interleave-Serializes race begun raced race_log refl race_ends

interleave-Gauges_example : Gauges raced
interleave-Gauges_example = interleave-Gauges race begun raced race_log race_ends begun-Gauges

first_idle : stage_at 0 begun.stages ≡ idle
unfolding stage_at
first_idle = refl

interleave-Sends_example :
    (unsent : List Frame) × (held_by 0 race begun ≡ sent_by 0 race begun ++ unsent)
    × Unsent (stage_at 0 raced.stages) unsent
interleave-Sends_example = interleave-Sends 0 race begun raced race_log first_idle race_ends

sent_first : sent_by 0 race begun ≡ bulk (codes "8") ∷ []
unfolding opened_commands sent_by given mine stage_at step_at stage_step execute after_apply
sent_first = refl
