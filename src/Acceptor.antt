-- ===== src/Acceptor.antt =====
-- src/acceptor.rs: the accept loop and its tasks, by the permits that they hold. The tasks are
-- counted: a permit is like any other. A handler that is spawned behind the shutdown would not receive
-- it; `main` sends it only once the loop is dropped.
pub mod Permits
mod Examples
use mini_redis.Prelude.{ℕ, zero, suc, ◌+◌, ◌≡◌, Bool, false, true, Option, none, some}
use mini_redis.Metrics.{
  Metrics, new_metrics, inc_accept_errors, inc_active_connections, dec_active_connections,
}

-- Where the loop of `run` is: before its permit, with it in `select!`, in the delay behind an error,
-- or at its end.
pub data Phase : Type 0 where
  acquiring accepting sleeping stopped : Phase

-- `Acceptor` in its run, and the tasks it has spawned, counted by where they are: the permits of the
-- semaphore that are free; whether the shutdown was sent; tasks before their handler runs, in its
-- `select!`, behind a read with its reply not yet written, and behind its `run` with all it holds; tasks
-- that return without a handler; and tasks that still hold a permit only, or a completion sender only.
pub record Acceptor : Type 0 where
  pub phase : Phase
  pub available : ℕ
  pub notified : Bool
  pub starting : ℕ
  pub selecting : ℕ
  pub replying : ℕ
  pub leaving : ℕ
  pub abandoned : ℕ
  pub holding_permit : ℕ
  pub holding_sender : ℕ
  pub metrics : Metrics

-- `Acceptor::new`, at the start of `run`, over new metrics.
abbrev pub new_acceptor : ℕ → Acceptor
new_acceptor max_connections = record {
  phase = acquiring;
  available = max_connections;
  notified = false;
  starting = 0;
  selecting = 0;
  replying = 0;
  leaving = 0;
  abandoned = 0;
  holding_permit = 0;
  holding_sender = 0;
  metrics = new_metrics;
}

-- The reply of `listener.accept()`, with the kind of an error.
pub data Accepted : Type 0 where
  socket connection_aborted connection_reset other_error : Accepted

-- A permit is dropped.
abbrev pub release : Acceptor → Acceptor
release a = record a { available = a.available + 1 }

-- Steps 4 and 5 of `run`.
unfoldable pub after_accept : Accepted → Acceptor → Acceptor
after_accept socket a = record a { phase = acquiring; starting = a.starting + 1 }
after_accept connection_aborted a =
    release (record a { phase = acquiring; metrics = inc_accept_errors a.metrics })
after_accept connection_reset a =
    release (record a { phase = acquiring; metrics = inc_accept_errors a.metrics })
after_accept other_error a = record a { phase = sleeping; metrics = inc_accept_errors a.metrics }

-- What the loop does: it gets a permit, its `select!` takes the reply of `accept` or the shutdown,
-- or its delay is over.
pub data LoopEvent : Type 0 where
  permit_acquired : LoopEvent
  accept_completed : Accepted → LoopEvent
  shutdown_received : LoopEvent
  delay_over : LoopEvent

-- What one of the tasks does: it returns as TCP_NODELAY cannot be set, or its handler starts to run;
-- the handler reads a frame or a read error, and has its reply written; it ends at the end of its
-- input or a timeout, by the shutdown, or behind a read (an error, a write that fails, a panic). Then the
-- task drops what it holds: a handler its sender before its permit, a task without one in either order.
pub data TaskEvent : Type 0 where
  nodelay_failed handler_started : TaskEvent
  read_returned reply_written : TaskEvent
  handler_finished handler_notified handler_failed : TaskEvent
  handler_dropped_sender abandoned_sender abandoned_permit : TaskEvent
  last_permit_dropped last_sender_dropped : TaskEvent

unfoldable pub take_permit : ℕ → Acceptor → Option Acceptor
take_permit zero a = none
take_permit (suc n) a = some (record a { phase = accepting; available = n })

-- A receiver of the shutdown returns once it was sent.
unfoldable pub if_sent : Bool → Acceptor → Option Acceptor
if_sent true a = some a
if_sent false a = none

-- An event of the loop; `none` where it cannot happen.
unfoldable pub loop_step : Phase → LoopEvent → Acceptor → Option Acceptor
loop_step acquiring permit_acquired a = take_permit a.available a
loop_step accepting (accept_completed reply) a = some (after_accept reply a)
loop_step accepting shutdown_received a =
    if_sent a.notified (release (record a { phase = stopped }))
loop_step sleeping delay_over a = some (release (record a { phase = acquiring }))
loop_step _ _ a = none

-- One task of those at a place goes on.
unfoldable pub one_of : ℕ → (ℕ → Option Acceptor) → Option Acceptor
one_of zero next = none
one_of (suc n) next = next n

-- `run` of a handler is over: its guard is dropped before the handler.
abbrev pub end_run : Acceptor → Acceptor
end_run a = record a { leaving = a.leaving + 1; metrics = dec_active_connections a.metrics }

-- An event of a task; `none` where no task is where it happens.
unfoldable pub task_step : TaskEvent → Acceptor → Option Acceptor
task_step nodelay_failed a =
    one_of a.starting (λ n. some (record a { starting = n; abandoned = a.abandoned + 1 }))
task_step handler_started a = one_of a.starting (λ n. some (record a {
  starting = n;
  selecting = a.selecting + 1;
  metrics = inc_active_connections a.metrics;
}))
task_step read_returned a =
    one_of a.selecting (λ n. some (record a { selecting = n; replying = a.replying + 1 }))
task_step reply_written a =
    one_of a.replying (λ n. some (record a { replying = n; selecting = a.selecting + 1 }))
task_step handler_finished a = one_of a.selecting (λ n. some (end_run (record a { selecting = n })))
task_step handler_notified a =
    one_of a.selecting (λ n. if_sent a.notified (end_run (record a { selecting = n })))
task_step handler_failed a = one_of a.replying (λ n. some (end_run (record a { replying = n })))
task_step handler_dropped_sender a =
    one_of a.leaving (λ n. some (record a { leaving = n; holding_permit = a.holding_permit + 1 }))
task_step abandoned_sender a =
    one_of a.abandoned
      (λ n. some (record a { abandoned = n; holding_permit = a.holding_permit + 1 }))
task_step abandoned_permit a =
    one_of a.abandoned
      (λ n. some (release (record a { abandoned = n; holding_sender = a.holding_sender + 1 })))
task_step last_permit_dropped a =
    one_of a.holding_permit (λ n. some (release (record a { holding_permit = n })))
task_step last_sender_dropped a =
    one_of a.holding_sender (λ n. some (record a { holding_sender = n }))

-- The shutdown is sent, by whoever holds a sender of it.
abbrev pub notify : Acceptor → Acceptor
notify a = record a { notified = true }

-- The states of `run` and its tasks, in any order of their events.
pub data Reaches (limit : ℕ) : Acceptor → Type 0 where
  reaches_start : Reaches limit (new_acceptor limit)
  reaches_loop :
      {a a' : Acceptor} (e : LoopEvent)
      → Reaches limit a
      → loop_step a.phase e a ≡ some a'
      → Reaches limit a'
  reaches_task :
      {a a' : Acceptor} (e : TaskEvent)
      → Reaches limit a
      → task_step e a ≡ some a'
      → Reaches limit a'
  reaches_notify : {a : Acceptor} → Reaches limit a → Reaches limit (notify a)
