-- ===== src/Server.antt =====
-- src/bin/server.rs: the accept loop beside the wait for Ctrl+C, and the shutdown behind both.
mod Tasks
pub mod Shutdown
pub mod Exit
pub mod Notice
mod Examples
use mini_redis.Prelude.{ℕ, zero, suc, ◌+◌, ◌≡◌, Option, none, some}
use mini_redis.Acceptor.{
  Phase, acquiring, accepting, sleeping, stopped, Acceptor, new_acceptor, release, LoopEvent,
  TaskEvent, loop_step, task_step, notify,
}

-- Where `main` is: in its `select!`; behind it; behind `shutdown_tx.send(())`; with the acceptor
-- dropped; with its own sender dropped too, until the channel of the senders is closed; behind that.
pub data Main : Type 0 where
  serving notifying releasing half_released draining closed : Main

-- `shutdown_result`: not yet, or the one that `select!` took. `Acceptor::run` gives no error, as its
-- semaphore is never closed.
pub data Selected : Type 0 where
  unselected ended_well ended_badly : Selected

pub record Server : Type 0 where
  pub main : Main
  pub acceptor : Acceptor
  pub shutdown_result : Selected

-- Step 1 of `main`.
abbrev pub new_server : ℕ → Server
new_server max_connections = record {
  main = serving;
  acceptor = new_acceptor max_connections;
  shutdown_result = unselected;
}

-- The senders of the completion channel: that of `main` and the acceptor's, until they are dropped,
-- and one in each task but those that hold a permit only.
abbrev pub own_senders : Main → ℕ
own_senders serving = 2
own_senders notifying = 2
own_senders releasing = 2
own_senders half_released = 1
own_senders draining = 0
own_senders closed = 0

abbrev pub task_senders : Acceptor → ℕ
task_senders a = a.starting + a.selecting + a.replying + a.leaving + a.abandoned + a.holding_sender

abbrev pub completion_senders : Server → ℕ
completion_senders s = own_senders s.main + task_senders s.acceptor

-- The future of the accept loop is dropped, with the permit that it may hold.
unfoldable pub cancel : Phase → Acceptor → Acceptor
cancel acquiring a = record a { phase = stopped }
cancel accepting a = release (record a { phase = stopped })
cancel sleeping a = release (record a { phase = stopped })
cancel stopped a = a

-- What happens next: an event of the loop or of a task; `select!` takes the end of the loop, or
-- Ctrl+C, or the failure of its listener; the shutdown is sent; the acceptor and the sender of `main`
-- are dropped; the channel closes.
pub data Event : Type 0 where
  loop_event : LoopEvent → Event
  task_event : TaskEvent → Event
  loop_finished interrupted listener_failed : Event
  shutdown_sent acceptor_dropped sender_dropped channel_closed : Event

unfoldable pub with_acceptor : Server → Option Acceptor → Option Server
with_acceptor s none = none
with_acceptor s (some a) = some (record s { acceptor = a })

unfoldable pub finish_loop : Phase → Server → Option Server
finish_loop stopped s = some (record s { main = notifying; shutdown_result = ended_well })
finish_loop _ s = none

-- `recv` returns `None` once no sender is left.
unfoldable pub close : ℕ → Server → Option Server
close zero s = some (record s { main = closed })
close (suc n) s = none

-- `select!` takes the other branch; the accept loop is dropped.
abbrev pub interrupt : Selected → Server → Server
interrupt result s = record {
  main = notifying;
  acceptor = cancel s.acceptor.phase s.acceptor;
  shutdown_result = result;
}

-- `none` where the event cannot happen.
unfoldable pub server_step : Main → Event → Server → Option Server
server_step serving (loop_event e) s = with_acceptor s (loop_step s.acceptor.phase e s.acceptor)
server_step serving (task_event e) s = with_acceptor s (task_step e s.acceptor)
server_step serving loop_finished s = finish_loop s.acceptor.phase s
server_step serving interrupted s = some (interrupt ended_well s)
server_step serving listener_failed s = some (interrupt ended_badly s)
server_step serving _ s = none
server_step notifying shutdown_sent s =
    some (record s { main = releasing; acceptor = notify s.acceptor })
server_step releasing acceptor_dropped s = some (record s { main = half_released })
server_step half_released sender_dropped s = some (record s { main = draining })
server_step draining channel_closed s = close (completion_senders s) s
server_step _ (task_event e) s = with_acceptor s (task_step e s.acceptor)
server_step _ _ s = none

-- The states of the server, in any order of events.
pub data Reaches (limit : ℕ) : Server → Type 0 where
  reaches_start : Reaches limit (new_server limit)
  reaches_next :
      {s s' : Server} (e : Event)
      → Reaches limit s
      → server_step s.main e s ≡ some s'
      → Reaches limit s'
