-- ===== src/Acceptor/Permits.antt =====
-- The permits of the accept loop of src/acceptor.rs.
use mini_redis.Prelude.{
  ℕ, zero, suc, ◌+◌, ◌≤◌, ◌≡◌, refl, ap, subst, Bool, false, true, Option, some, arith,
}
use mini_redis.Config.{usize_max}
use mini_redis.Metrics.{fetch_inc, fetch_dec}
use mini_redis.Acceptor.{
  Phase, acquiring, accepting, sleeping, stopped, Acceptor, Accepted, socket, connection_aborted,
  connection_reset, other_error, release, after_accept, LoopEvent, permit_acquired,
  accept_completed, shutdown_received, delay_over, TaskEvent, nodelay_failed, handler_started,
  read_returned, reply_written, handler_finished, handler_notified, handler_failed,
  handler_dropped_sender, abandoned_sender, abandoned_permit, last_permit_dropped,
  last_sender_dropped, take_permit, if_sent, loop_step, one_of, task_step, Reaches, reaches_start,
  reaches_loop, reaches_task, reaches_notify,
}

-- The permits that the loop itself holds.
abbrev pub held : Phase → ℕ
held acquiring = 0
held accepting = 1
held sleeping = 1
held stopped = 0

-- The permits that tasks hold, one each: all tasks but those with a sender only.
abbrev pub held_by_tasks : Acceptor → ℕ
held_by_tasks a = a.starting + a.selecting + a.replying + a.leaving + a.abandoned + a.holding_permit

-- Every permit is free, or held by the loop or by one task; the metric counts the handlers that run.
pub record Balanced (limit : ℕ) (a : Acceptor) : Type 0 where
  pub permits : a.available + held a.phase + held_by_tasks a ≡ limit
  pub active : a.metrics.active_connections ≡ a.selecting + a.replying

pub some-inv : {a b : Acceptor} → some a ≡ some b → a ≡ b
some-inv e = cc

-- If `a` steps to some `b` that is balanced, what it steps to is.
pub lands :
    {limit : ℕ} {a' : Acceptor} (b : Acceptor)
    → some b ≡ some a'
    → Balanced limit b
    → Balanced limit a'
lands b e p = subst (Balanced _) (some-inv e) p

pub if_sent-inv : (b : Bool) {a a' : Acceptor} → if_sent b a ≡ some a' → some a ≡ some a'
unfolding if_sent
if_sent-inv true e = e
if_sent-inv false e = cc

pub one_of-inv :
    (n : ℕ) (next : ℕ → Option Acceptor) {a' : Acceptor}
    → one_of n next ≡ some a'
    → (m : ℕ) × (n ≡ suc m) × (next m ≡ some a')
unfolding one_of
one_of-inv zero next e = cc
one_of-inv (suc m) next e = (m, refl, e)

module _ (limit : ℕ) where
  after_accept-Balanced :
      (r : Accepted) (a : Acceptor)
      → a.phase ≡ accepting
      → Balanced limit a
      → Balanced limit (after_accept r a)
  unfolding after_accept
  after_accept-Balanced socket a at p = record {
    permits = omega (arith, p.permits, ap held at);
    active = p.active;
  }
  after_accept-Balanced connection_aborted a at p = record {
    permits = omega (arith, p.permits, ap held at);
    active = p.active;
  }
  after_accept-Balanced connection_reset a at p = record {
    permits = omega (arith, p.permits, ap held at);
    active = p.active;
  }
  after_accept-Balanced other_error a at p = record {
    permits = omega (arith, p.permits, ap held at);
    active = p.active;
  }

  take_permit-Balanced :
      (n : ℕ) (a a' : Acceptor)
      → a.available ≡ n
      → a.phase ≡ acquiring
      → Balanced limit a
      → take_permit n a ≡ some a'
      → Balanced limit a'
  unfolding take_permit
  take_permit-Balanced zero a a' free at p e = cc
  take_permit-Balanced (suc n) a a' free at p e =
      lands (record a { phase = accepting; available = n }) e
        (record { permits = omega (arith, p.permits, ap held at); active = p.active })

  pub loop_step-Balanced :
      (phase : Phase) (e : LoopEvent) (a a' : Acceptor)
      → a.phase ≡ phase
      → Balanced limit a
      → loop_step phase e a ≡ some a'
      → Balanced limit a'
  unfolding loop_step
  loop_step-Balanced acquiring permit_acquired a a' at p e =
      take_permit-Balanced a.available a a' refl at p e
  loop_step-Balanced accepting (accept_completed r) a a' at p e =
      lands (after_accept r a) e (after_accept-Balanced r a at p)
  loop_step-Balanced accepting shutdown_received a a' at p e =
      lands (release (record a { phase = stopped })) (if_sent-inv a.notified e)
        (record { permits = omega (arith, p.permits, ap held at); active = p.active })
  loop_step-Balanced sleeping delay_over a a' at p e =
      lands (release (record a { phase = acquiring })) e
        (record { permits = omega (arith, p.permits, ap held at); active = p.active })
  loop_step-Balanced _ _ a a' at p e = cc

  module _ (small : limit ≤ usize_max) where
    pub task_step-Balanced :
        (e : TaskEvent) (a a' : Acceptor)
        → Balanced limit a
        → task_step e a ≡ some a'
        → Balanced limit a'
    unfolding task_step fetch_inc fetch_dec
    task_step-Balanced nodelay_failed a a' p h =
        let (n, is, e) = one_of-inv a.starting _ h in
        lands _ e (record {
          permits = omega (arith, p.permits, is);
          active = omega (arith, p.permits, p.active, is);
        })
    task_step-Balanced handler_started a a' p h =
        let (n, is, e) = one_of-inv a.starting _ h in
        lands _ e (record {
          permits = omega (arith, p.permits, is);
          active = omega (arith, p.permits, p.active, is);
        })
    task_step-Balanced read_returned a a' p h =
        let (n, is, e) = one_of-inv a.selecting _ h in
        lands _ e (record {
          permits = omega (arith, p.permits, is);
          active = omega (arith, p.permits, p.active, is);
        })
    task_step-Balanced reply_written a a' p h =
        let (n, is, e) = one_of-inv a.replying _ h in
        lands _ e (record {
          permits = omega (arith, p.permits, is);
          active = omega (arith, p.permits, p.active, is);
        })
    task_step-Balanced handler_finished a a' p h =
        let (n, is, e) = one_of-inv a.selecting _ h in
        lands _ e (record {
          permits = omega (arith, p.permits, is);
          active = omega (arith, p.permits, p.active, is);
        })
    task_step-Balanced handler_notified a a' p h =
        let (n, is, e) = one_of-inv a.selecting _ h in
        lands _ (if_sent-inv a.notified e) (record {
          permits = omega (arith, p.permits, is);
          active = omega (arith, p.permits, p.active, is);
        })
    task_step-Balanced handler_failed a a' p h =
        let (n, is, e) = one_of-inv a.replying _ h in
        lands _ e (record {
          permits = omega (arith, p.permits, is);
          active = omega (arith, p.permits, p.active, is);
        })
    task_step-Balanced handler_dropped_sender a a' p h =
        let (n, is, e) = one_of-inv a.leaving _ h in
        lands _ e (record {
          permits = omega (arith, p.permits, is);
          active = omega (arith, p.permits, p.active, is);
        })
    task_step-Balanced abandoned_sender a a' p h =
        let (n, is, e) = one_of-inv a.abandoned _ h in
        lands _ e (record {
          permits = omega (arith, p.permits, is);
          active = omega (arith, p.permits, p.active, is);
        })
    task_step-Balanced abandoned_permit a a' p h =
        let (n, is, e) = one_of-inv a.abandoned _ h in
        lands _ e (record {
          permits = omega (arith, p.permits, is);
          active = omega (arith, p.permits, p.active, is);
        })
    task_step-Balanced last_permit_dropped a a' p h =
        let (n, is, e) = one_of-inv a.holding_permit _ h in
        lands _ e (record {
          permits = omega (arith, p.permits, is);
          active = omega (arith, p.permits, p.active, is);
        })
    task_step-Balanced last_sender_dropped a a' p h =
        let (n, is, e) = one_of-inv a.holding_sender _ h in
        lands _ e (record {
          permits = omega (arith, p.permits, is);
          active = omega (arith, p.permits, p.active, is);
        })

-- In every state that the accept loop and its tasks reach, each permit is free, or held by the loop
-- or by one task: no more handlers run than the limit. The metric counts those that run.
pub Reaches-Balanced :
    (limit : ℕ) (a : Acceptor) → limit ≤ usize_max → Reaches limit a → Balanced limit a
Reaches-Balanced limit a small reaches_start = record { permits = omega arith; active = refl }
Reaches-Balanced limit a small (reaches_loop e r h) =
    loop_step-Balanced limit _ e _ _ refl (Reaches-Balanced limit _ small r) h
Reaches-Balanced limit a small (reaches_task e r h) =
    task_step-Balanced limit small e _ _ (Reaches-Balanced limit _ small r) h
Reaches-Balanced limit a small (reaches_notify r) =
    let p = Reaches-Balanced limit _ small r in record { permits = p.permits; active = p.active }
