-- ===== src/Acceptor/Examples.antt =====
-- The theorems on the accept loop in a run with a limit of one connection.
use mini_redis.Prelude.{false, refl, arith}
use mini_redis.Acceptor.{
  Acceptor, Reaches, reaches_start, reaches_loop, reaches_task, permit_acquired, accept_completed,
  socket, connection_reset, handler_started, loop_step, task_step, take_permit, after_accept,
  one_of, acquiring,
}
use mini_redis.Metrics.{new_metrics, inc_accept_errors, inc_active_connections}
use mini_redis.Acceptor.Permits.{Balanced, Reaches-Balanced}

-- One accept has failed and one client is served.
abbrev busy : Acceptor
busy = record {
  phase = acquiring;
  available = 0;
  starting = 0;
  notified = false;
  selecting = 1;
  replying = 0;
  leaving = 0;
  abandoned = 0;
  holding_permit = 0;
  holding_sender = 0;
  metrics = inc_active_connections (inc_accept_errors new_metrics);
}

busy-Reaches : Reaches 1 busy
unfolding loop_step task_step take_permit after_accept one_of
busy-Reaches =
    reaches_task handler_started
      (reaches_loop (accept_completed socket)
        (reaches_loop permit_acquired
          (reaches_loop (accept_completed connection_reset)
            (reaches_loop permit_acquired reaches_start refl) refl)
          refl)
        refl)
      refl

Reaches-Balanced_example : Balanced 1 busy
Reaches-Balanced_example = Reaches-Balanced 1 busy (omega arith) busy-Reaches
