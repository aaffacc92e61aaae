-- ===== src/Server/Tasks.antt =====
-- What the tasks of src/acceptor.rs hold, as src/bin/server.rs waits for their senders.
use mini_redis.Prelude.{◌≤◌, ◌≡◌, refl, subst, Option, none, some, arith}
use mini_redis.Acceptor.{
  Acceptor, TaskEvent, nodelay_failed, handler_started, read_returned, reply_written,
  handler_finished, handler_notified, handler_failed, handler_dropped_sender, abandoned_sender,
  abandoned_permit, last_permit_dropped, last_sender_dropped, task_step,
}
use mini_redis.Acceptor.Permits.{some-inv, if_sent-inv, one_of-inv}
use mini_redis.Server.{Server, with_acceptor, task_senders}

-- An event of a task takes no new sender and leaves the loop and the notice as they are.
pub record Worked (a a' : Acceptor) : Type 0 where
  pub fewer : task_senders a' ≤ task_senders a
  pub same_phase : a'.phase ≡ a.phase
  pub same_notice : a'.notified ≡ a.notified

worked : {a a' : Acceptor} (b : Acceptor) → some b ≡ some a' → Worked a b → Worked a a'
worked {a} b e w = subst (Worked a) (some-inv e) w

pub task_step-Worked : (e : TaskEvent) (a a' : Acceptor) → task_step e a ≡ some a' → Worked a a'
unfolding task_step
task_step-Worked nodelay_failed a a' h =
    let (n, is, e) = one_of-inv a.starting _ h in
    worked _ e (record { fewer = omega (arith, is); same_phase = refl; same_notice = refl })
task_step-Worked handler_started a a' h =
    let (n, is, e) = one_of-inv a.starting _ h in
    worked _ e (record { fewer = omega (arith, is); same_phase = refl; same_notice = refl })
task_step-Worked read_returned a a' h =
    let (n, is, e) = one_of-inv a.selecting _ h in
    worked _ e (record { fewer = omega (arith, is); same_phase = refl; same_notice = refl })
task_step-Worked reply_written a a' h =
    let (n, is, e) = one_of-inv a.replying _ h in
    worked _ e (record { fewer = omega (arith, is); same_phase = refl; same_notice = refl })
task_step-Worked handler_finished a a' h =
    let (n, is, e) = one_of-inv a.selecting _ h in
    worked _ e (record { fewer = omega (arith, is); same_phase = refl; same_notice = refl })
task_step-Worked handler_notified a a' h =
    let (n, is, e) = one_of-inv a.selecting _ h in
    worked _ (if_sent-inv a.notified e)
      (record { fewer = omega (arith, is); same_phase = refl; same_notice = refl })
task_step-Worked handler_failed a a' h =
    let (n, is, e) = one_of-inv a.replying _ h in
    worked _ e (record { fewer = omega (arith, is); same_phase = refl; same_notice = refl })
task_step-Worked handler_dropped_sender a a' h =
    let (n, is, e) = one_of-inv a.leaving _ h in
    worked _ e (record { fewer = omega (arith, is); same_phase = refl; same_notice = refl })
task_step-Worked abandoned_sender a a' h =
    let (n, is, e) = one_of-inv a.abandoned _ h in
    worked _ e (record { fewer = omega (arith, is); same_phase = refl; same_notice = refl })
task_step-Worked abandoned_permit a a' h =
    let (n, is, e) = one_of-inv a.abandoned _ h in
    worked _ e (record { fewer = omega (arith, is); same_phase = refl; same_notice = refl })
task_step-Worked last_permit_dropped a a' h =
    let (n, is, e) = one_of-inv a.holding_permit _ h in
    worked _ e (record { fewer = omega (arith, is); same_phase = refl; same_notice = refl })
task_step-Worked last_sender_dropped a a' h =
    let (n, is, e) = one_of-inv a.holding_sender _ h in
    worked _ e (record { fewer = omega (arith, is); same_phase = refl; same_notice = refl })

pub server-inv : {s s' : Server} → some s ≡ some s' → s ≡ s'
server-inv e = cc

pub with_acceptor-inv :
    (s s' : Server) (o : Option Acceptor)
    → with_acceptor s o ≡ some s'
    → (a : Acceptor) × (o ≡ some a) × (record s { acceptor = a } ≡ s')
unfolding with_acceptor
with_acceptor-inv s s' none e = cc
with_acceptor-inv s s' (some a) e = (a, refl, server-inv e)
