-- ===== src/Server/Examples.antt =====
-- The theorems on the shutdown in a run with one client.
use mini_redis.Prelude.{◌+◌, ◌≡◌, refl, true, none, List, [], ◌∷◌, arith}
use mini_redis.Acceptor.{
  permit_acquired, accept_completed, socket, handler_started, handler_notified,
  handler_dropped_sender, loop_step, task_step, take_permit, after_accept, one_of, if_sent, stopped,
}
use mini_redis.Metrics.{new_metrics, inc_active_connections, dec_active_connections}
use mini_redis.Server.{
  Server, closed, Event, Reaches, reaches_start, reaches_next, loop_event, task_event,
  loop_finished, listener_failed, shutdown_sent, acceptor_dropped, sender_dropped, channel_closed,
  ended_badly, new_server, server_step, with_acceptor, cancel, close, task_senders,
}
use mini_redis.Server.Shutdown.{closed_lem}
use mini_redis.Server.Notice.{was_sent, notice_lem}
use mini_redis.Server.Exit.{IsDecided, Happens, happens_end, happens_next, verdict, exit_lem}

-- The listener of Ctrl+C has failed while a client was served, whose task still holds its permit.
abbrev at_end : Server
at_end = record {
  main = closed;
  shutdown_result = ended_badly;
  acceptor = record {
    phase = stopped;
    available = 0;
    notified = true;
    starting = 0;
    selecting = 0;
    replying = 0;
    leaving = 0;
    abandoned = 0;
    holding_permit = 1;
    holding_sender = 0;
    metrics = dec_active_connections (inc_active_connections new_metrics);
  };
}

at_end-Reaches : Reaches 1 at_end
unfolding server_step with_acceptor loop_step task_step take_permit after_accept one_of if_sent
    cancel close
at_end-Reaches =
    reaches_next channel_closed
      (reaches_next (task_event handler_dropped_sender)
        (reaches_next (task_event handler_notified)
          (reaches_next sender_dropped
            (reaches_next acceptor_dropped
              (reaches_next shutdown_sent
                (reaches_next listener_failed
                  (reaches_next (task_event handler_started)
                    (reaches_next (loop_event (accept_completed socket))
                      (reaches_next (loop_event permit_acquired) reaches_start refl) refl)
                    refl)
                  refl)
                refl)
              refl)
            refl)
          refl)
        refl)
      refl

closed_lem_example :
    (at_end.acceptor.selecting + at_end.acceptor.replying ≡ 0)
    × (at_end.acceptor.metrics.active_connections ≡ 0)
    × (task_senders at_end.acceptor ≡ 0)
    × (at_end.acceptor.available + at_end.acceptor.holding_permit ≡ 1)
closed_lem_example = closed_lem 1 at_end (omega arith) at_end-Reaches refl

notice_lem_example :
    (at_end.acceptor.notified ≡ was_sent at_end.main)
    × (server_step at_end.main loop_finished at_end ≡ none)
notice_lem_example = notice_lem 1 at_end at_end-Reaches

abbrev run_events : List Event
run_events =
    loop_event permit_acquired
    ∷ loop_event (accept_completed socket)
    ∷ task_event handler_started
    ∷ listener_failed
    ∷ shutdown_sent
    ∷ acceptor_dropped
    ∷ sender_dropped
    ∷ task_event handler_notified
    ∷ task_event handler_dropped_sender
    ∷ channel_closed
    ∷ []

run_events-Happens : Happens (new_server 1) run_events at_end
unfolding server_step with_acceptor loop_step task_step take_permit after_accept one_of if_sent
    cancel close
run_events-Happens = happens_next _ refl (
    happens_next _ refl (
      happens_next _ refl (
        happens_next _ refl (
          happens_next _ refl (
            happens_next _ refl (
              happens_next _ refl
                (happens_next _ refl (happens_next _ refl (happens_next _ refl happens_end)))))))))

exit_lem_example : (at_end.shutdown_result ≡ verdict run_events) × IsDecided at_end
exit_lem_example = exit_lem 1 run_events at_end run_events-Happens
