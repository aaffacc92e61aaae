-- ===== src/Handler/Shared.antt =====
-- Several handlers of src/handler.rs at once, on one database and one set of counters. A step of a
-- handler is one access to what they share, with what the handler does on its own before it.
pub mod Linear
pub mod Gauges
pub mod Sends
mod Examples
use mini_redis.Prelude.{ℕ, zero, suc, Option, none, some, List, [], ◌∷◌}
use mini_redis.Frame.{Frame, error}
use mini_redis.Database.{Database}
use mini_redis.Command.{Command, get, set, from_frame, apply}
use mini_redis.Command.Parse
use mini_redis.Metrics.{
  Metrics, inc_active_connections, dec_active_connections, inc_requests_received,
  inc_command_responses_written, inc_command_parse_errors,
}
use mini_redis.Handler.{count_lookup}

-- Where `run` stands: before its guard, in `select!`, behind step 5, behind a lookup that is not yet
-- counted, in `write_frame`, and behind its end, with every request answered or without.
pub data Stage : Type 0 where
  starting idle : Stage
  counted : Frame → Stage
  looked_up : Frame → Stage
  replying : Frame → Stage
  left dropped : Stage

-- What a step does: `leaves` is the end of the loop in `select!` or by a read that fails.
pub data StageEvent : Type 0 where
  starts : StageEvent
  reads : Frame → StageEvent
  leaves proceeds replied reply_failed : StageEvent

pub record Moved : Type 0 where
  pub stage : Stage
  pub database : Database
  pub metrics : Metrics

-- Behind `apply`: a panic at the mutex ends the handler.
unfoldable pub after_apply :
    (Frame → Stage) → Option (Frame × Database) → Database → Metrics → Moved
after_apply next none db m = record {
  stage = dropped;
  database = db;
  metrics = dec_active_connections m;
}
after_apply next (some (y, db')) db m = record { stage = next y; database = db'; metrics = m }

-- Step 6, up to its first access.
unfoldable pub execute : Parse.Result Command → Database → Metrics → Moved
execute (Parse.ok (get key)) db m = after_apply looked_up (apply (get key) db) db m
execute (Parse.ok (set key value)) db m = after_apply replying (apply (set key value) db) db m
execute (Parse.err e) db m = record {
  stage = replying (error (Parse.error_text e));
  database = db;
  metrics = inc_command_parse_errors m;
}

unfoldable pub stage_step : StageEvent → Stage → Database → Metrics → Option Moved
stage_step starts starting db m =
    some (record { stage = idle; database = db; metrics = inc_active_connections m })
stage_step (reads x) idle db m =
    some (record { stage = counted x; database = db; metrics = inc_requests_received m })
stage_step leaves idle db m =
    some (record { stage = left; database = db; metrics = dec_active_connections m })
stage_step proceeds (counted x) db m = some (execute (from_frame x) db m)
stage_step proceeds (looked_up y) db m =
    some (record { stage = replying y; database = db; metrics = count_lookup y m })
stage_step replied (replying y) db m =
    some (record { stage = idle; database = db; metrics = inc_command_responses_written m })
stage_step reply_failed (replying y) db m =
    some (record { stage = dropped; database = db; metrics = dec_active_connections m })
stage_step _ _ db m = none

-- The handlers, and what they share.
pub record Shared : Type 0 where
  pub stages : List Stage
  pub database : Database
  pub metrics : Metrics

abbrev pub head_moved : List Stage → Option Moved → Option Shared
head_moved later none = none
head_moved later (some r) =
    some (record { stages = r.stage ∷ later; database = r.database; metrics = r.metrics })

abbrev pub behind : Stage → Option Shared → Option Shared
behind stage none = none
behind stage (some s) = some (record s { stages = stage ∷ s.stages })

-- A step of the handler at a place in the list.
unfoldable pub step_at : ℕ → StageEvent → List Stage → Database → Metrics → Option Shared
step_at i e [] db m = none
step_at zero e (stage ∷ later) db m = head_moved later (stage_step e stage db m)
step_at (suc i) e (stage ∷ later) db m = behind stage (step_at i e later db m)

-- Where the handler at a place in the list is.
unfoldable pub stage_at : ℕ → List Stage → Stage
stage_at i [] = dropped
stage_at zero (stage ∷ later) = stage
stage_at (suc i) (stage ∷ later) = stage_at i later

-- A command that was applied, and the reply that its handler holds behind that, if it does.
pub record Applied : Type 0 where
  pub command : Command
  pub reply : Option Frame

unfoldable pub held_reply : Stage → Option Frame
held_reply (looked_up y) = some y
held_reply (replying y) = some y
held_reply _ = none

unfoldable pub applied_by : Parse.Result Command → Stage → Option Applied
applied_by (Parse.err e) behind_it = none
applied_by (Parse.ok c) behind_it = some (record { command = c; reply = held_reply behind_it })

-- The command that an event applies, from the stages before and behind it.
unfoldable pub applies : StageEvent → Stage → Stage → Option Applied
applies proceeds (counted x) behind_it = applied_by (from_frame x) behind_it
applies _ _ behind_it = none

abbrev pub logged : Option Applied → List Applied → List Applied
logged none log = log
logged (some a) log = a ∷ log

pub record Schedule : Type 0 where
  pub handler : ℕ
  pub event : StageEvent

abbrev pub before : Option Applied → Option (List Applied × Shared) → Option (List Applied × Shared)
before a none = none
before a (some (log, s)) = some (logged a log, s)

abbrev pub and_then :
    Schedule
    → Shared
    → Option Shared
    → (Shared → Option (List Applied × Shared))
    → Option (List Applied × Shared)
and_then t s none k = none
and_then t s (some s') k =
    before (applies t.event (stage_at t.handler s.stages) (stage_at t.handler s'.stages)) (k s')

-- Steps of any of the handlers in any order, with the commands that they apply.
unfoldable pub interleave : List Schedule → Shared → Option (List Applied × Shared)
interleave [] s = some ([], s)
interleave (t ∷ later) s =
    and_then t s (step_at t.handler t.event s.stages s.database s.metrics) (interleave later)
