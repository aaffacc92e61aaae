-- ===== src/Server/Shutdown.antt =====
-- The shutdown of src/bin/server.rs.
use mini_redis.Prelude.{ℕ, zero, suc, ◌+◌, ◌≤◌, ◌≡◌, ◌≢◌, refl, sym, ap, subst, ◌∙◌, some, arith}
use mini_redis.Config.{usize_max}
use mini_redis.Acceptor
use mini_redis.Acceptor.{
  Phase, acquiring, accepting, sleeping, stopped, Acceptor, LoopEvent, TaskEvent, loop_step,
  new_acceptor, task_step, release, notify,
}
use mini_redis.Acceptor.Permits.{
  Balanced, held, Reaches-Balanced, loop_step-Balanced, task_step-Balanced,
}
use mini_redis.Server.{
  Main, serving, notifying, releasing, half_released, draining, closed, Server, task_senders,
  completion_senders, cancel, shutdown_sent, acceptor_dropped, sender_dropped, Event, loop_event,
  task_event, loop_finished, interrupted, listener_failed, channel_closed, interrupt, Selected,
  ended_well, ended_badly, with_acceptor, finish_loop, close, server_step, Reaches, reaches_start,
  reaches_next,
}
use mini_redis.Server.Tasks.{task_step-Worked, server-inv, with_acceptor-inv}

-- The invariant of the server.
pub record Settled (limit : ℕ) (s : Server) : Type 0 where
  pub balanced : Balanced limit s.acceptor
  pub ended : s.main ≢ serving → s.acceptor.phase ≡ stopped
  pub quiet : s.main ≡ closed → task_senders s.acceptor ≡ 0

cancel-Balanced :
    (limit : ℕ) (phase : Phase) (a : Acceptor)
    → a.phase ≡ phase
    → Balanced limit a
    → Balanced limit (cancel phase a) × ((cancel phase a).phase ≡ stopped)
unfolding cancel
cancel-Balanced limit acquiring a at p =
    (record { permits = omega (arith, p.permits, ap held at); active = p.active }, refl)
cancel-Balanced limit accepting a at p =
    (record { permits = omega (arith, p.permits, ap held at); active = p.active }, refl)
cancel-Balanced limit sleeping a at p =
    (record { permits = omega (arith, p.permits, ap held at); active = p.active }, refl)
cancel-Balanced limit stopped a at p = (p, at)

module _ (limit : ℕ) (small : limit ≤ usize_max) where
  task-Settled :
      (e : TaskEvent) (s s' : Server)
      → Settled limit s
      → with_acceptor s (task_step e s.acceptor) ≡ some s'
      → Settled limit s'
  task-Settled e s s' p h =
      let (a, moved, is) = with_acceptor-inv s s' (task_step e s.acceptor) h in
      let w = task_step-Worked e s.acceptor a moved in
      subst (Settled limit) is (record {
        balanced = task_step-Balanced limit small e s.acceptor a p.balanced moved;
        ended = λ left. w.same_phase ∙ p.ended left;
        quiet = λ is_closed. omega (arith, w.fewer, p.quiet is_closed);
      })

  finish_loop-Settled :
      (phase : Phase) (s s' : Server)
      → s.acceptor.phase ≡ phase
      → Settled limit s
      → finish_loop phase s ≡ some s'
      → Settled limit s'
  unfolding finish_loop
  finish_loop-Settled stopped s s' at p h =
      subst (Settled limit) (server-inv h)
        (record { balanced = p.balanced; ended = λ _. at; quiet = λ e. cc })
  finish_loop-Settled _ s s' at p h = cc

  close-Settled :
      (n : ℕ) (s s' : Server)
      → completion_senders s ≡ n
      → s.main ≡ draining
      → Settled limit s
      → close n s ≡ some s'
      → Settled limit s'
  unfolding close
  close-Settled zero s s' none_left at p h = subst (Settled limit) (server-inv h) (record {
    balanced = p.balanced;
    ended = λ _. p.ended (λ e. draining-serving (sym at ∙ e));
    quiet = λ _. omega (arith, none_left);
  })
    where
      draining-serving : draining ≢ serving
      draining-serving e = cc
  close-Settled (suc n) s s' none_left at p h = cc

  interrupt-Settled :
      (result : Selected) (s : Server) → Settled limit s → Settled limit (interrupt result s)
  interrupt-Settled result s p =
      let (balanced, over) = cancel-Balanced limit s.acceptor.phase s.acceptor refl p.balanced in
      record { balanced = balanced; ended = λ _. over; quiet = λ e. cc }

  server_step-Settled :
      (m : Main) (e : Event) (s s' : Server)
      → s.main ≡ m
      → Settled limit s
      → server_step m e s ≡ some s'
      → Settled limit s'
  unfolding server_step
  server_step-Settled serving (loop_event e) s s' at p h =
      let (a, moved, is) = with_acceptor-inv s s' (loop_step s.acceptor.phase e s.acceptor) h in
      subst (Settled limit) is (record {
        balanced = loop_step-Balanced limit s.acceptor.phase e s.acceptor a refl p.balanced moved;
        ended = λ left. absurd (left at);
        quiet = λ is_closed. absurd (cc);
      })
  server_step-Settled serving (task_event e) s s' at p h = task-Settled e s s' p h
  server_step-Settled serving loop_finished s s' at p h =
      finish_loop-Settled s.acceptor.phase s s' refl p h
  server_step-Settled serving interrupted s s' at p h =
      subst (Settled limit) (server-inv h) (interrupt-Settled ended_well s p)
  server_step-Settled serving listener_failed s s' at p h =
      subst (Settled limit) (server-inv h) (interrupt-Settled ended_badly s p)
  server_step-Settled notifying shutdown_sent s s' at p h =
      subst (Settled limit) (server-inv h) (record {
        balanced = record { permits = p.balanced.permits; active = p.balanced.active };
        ended = λ _. p.ended (λ e. notifying-serving (sym at ∙ e));
        quiet = λ e. cc;
      })
    where
      notifying-serving : notifying ≢ serving
      notifying-serving e = cc
  server_step-Settled releasing acceptor_dropped s s' at p h =
      subst (Settled limit) (server-inv h) (record {
        balanced = p.balanced;
        ended = λ _. p.ended (λ e. releasing-serving (sym at ∙ e));
        quiet = λ e. cc;
      })
    where
      releasing-serving : releasing ≢ serving
      releasing-serving e = cc
  server_step-Settled half_released sender_dropped s s' at p h =
      subst (Settled limit) (server-inv h) (record {
        balanced = p.balanced;
        ended = λ _. p.ended (λ e. half-serving (sym at ∙ e));
        quiet = λ e. cc;
      })
    where
      half-serving : half_released ≢ serving
      half-serving e = cc
  server_step-Settled draining channel_closed s s' at p h =
      close-Settled (completion_senders s) s s' refl at p h
  server_step-Settled notifying (task_event e) s s' at p h = task-Settled e s s' p h
  server_step-Settled releasing (task_event e) s s' at p h = task-Settled e s s' p h
  server_step-Settled half_released (task_event e) s s' at p h = task-Settled e s s' p h
  server_step-Settled draining (task_event e) s s' at p h = task-Settled e s s' p h
  server_step-Settled closed (task_event e) s s' at p h = task-Settled e s s' p h
  server_step-Settled _ _ s s' at p h = cc

  Reaches-Settled : (s : Server) → Reaches limit s → Settled limit s
  Reaches-Settled s reaches_start = record {
    balanced = Reaches-Balanced limit (new_acceptor limit) small Acceptor.reaches_start;
    ended = λ e. absurd (e refl);
    quiet = λ e. cc;
  }
  Reaches-Settled s (reaches_next {s = before} e r h) =
      server_step-Settled before.main e before s refl (Reaches-Settled before r) h

-- In every state that the server reaches in which `main` has passed the wait on its channel, no handler
-- runs, the metric of active connections is zero, no task holds a sender, and every permit is free but
-- for one in each task that has dropped its sender before it.
pub closed_lem :
    (limit : ℕ) (s : Server)
    → limit ≤ usize_max
    → Reaches limit s
    → s.main ≡ closed
    → (s.acceptor.selecting + s.acceptor.replying ≡ 0)
      × (s.acceptor.metrics.active_connections ≡ 0)
      × (task_senders s.acceptor ≡ 0)
      × (s.acceptor.available + s.acceptor.holding_permit ≡ limit)
closed_lem limit s small r is_closed =
    let p = Reaches-Settled limit small s r in
    let none_left : task_senders s.acceptor ≡ 0 = p.quiet is_closed in
    let over : s.acceptor.phase ≡ stopped = p.ended (λ e. closed-serving (sym is_closed ∙ e)) in
    (
      omega (arith, none_left),
      omega (arith, none_left, p.balanced.active),
      none_left,
      omega (arith, none_left, p.balanced.permits, ap held over),
    )
  where
    closed-serving : closed ≢ serving
    closed-serving e = cc
