-- ===== src/Server/Notice.antt =====
-- When `main` of src/bin/server.rs has sent the shutdown.
use mini_redis.Prelude.{
  ℕ, zero, suc, ◌≡◌, ◌≢◌, refl, sym, ap, subst, ◌∙◌, Bool, false, true, none, some,
}
use mini_redis.Acceptor.{
  Phase, acquiring, accepting, sleeping, stopped, Acceptor, Accepted, socket, connection_aborted,
  connection_reset, other_error, after_accept, LoopEvent, permit_acquired, accept_completed,
  shutdown_received, delay_over, take_permit, if_sent, loop_step, TaskEvent, task_step,
}
use mini_redis.Acceptor.Permits.{some-inv}
use mini_redis.Server.{
  Main, serving, notifying, releasing, half_released, draining, closed, Server, completion_senders,
  Event, loop_event, task_event, loop_finished, interrupted, listener_failed, shutdown_sent,
  acceptor_dropped, sender_dropped, channel_closed, Selected, ended_well, ended_badly, interrupt,
  cancel, with_acceptor, finish_loop, close, server_step, Reaches, reaches_start, reaches_next,
}
use mini_redis.Server.Tasks.{task_step-Worked, server-inv, with_acceptor-inv}

abbrev pub was_sent : Main → Bool
was_sent serving = false
was_sent notifying = false
was_sent releasing = true
was_sent half_released = true
was_sent draining = true
was_sent closed = true

-- The acceptor was told of the shutdown or not; its loop has ended only if `main` is past it.
record Told (m : Main) (a : Acceptor) : Type 0 where
  notice : a.notified ≡ was_sent m
  loops : m ≡ serving → a.phase ≢ stopped

phase_differs : (a : Acceptor) (p : Phase) → a.phase ≡ p → p ≢ stopped → a.phase ≢ stopped
phase_differs a p at other e = other (sym at ∙ e)

-- An event of the loop, before the shutdown is sent.
abbrev Loops : Acceptor → Type 0
Loops a = (a.notified ≡ false) × (a.phase ≢ stopped)

moved-Loops : {a' : Acceptor} (b : Acceptor) → some b ≡ some a' → Loops b → Loops a'
moved-Loops b e h = subst Loops (some-inv e) h

after_accept-Loops : (r : Accepted) (a : Acceptor) → a.notified ≡ false → Loops (after_accept r a)
unfolding after_accept
after_accept-Loops socket a silent = (silent, λ e. cc)
after_accept-Loops connection_aborted a silent = (silent, λ e. cc)
after_accept-Loops connection_reset a silent = (silent, λ e. cc)
after_accept-Loops other_error a silent = (silent, λ e. cc)

take_permit-Loops :
    (n : ℕ) (a a' : Acceptor) → a.notified ≡ false → take_permit n a ≡ some a' → Loops a'
unfolding take_permit
take_permit-Loops zero a a' silent h = cc
take_permit-Loops (suc n) a a' silent h =
    moved-Loops (record a { phase = accepting; available = n }) h (silent, λ e. cc)

if_sent-none : (b : Bool) (a a' : Acceptor) → b ≡ false → if_sent b a ≡ some a' → Loops a'
unfolding if_sent
if_sent-none true a a' silent h = cc
if_sent-none false a a' silent h = cc

loop_step-Loops :
    (phase : Phase) (e : LoopEvent) (a a' : Acceptor)
    → a.notified ≡ false
    → loop_step phase e a ≡ some a'
    → Loops a'
unfolding loop_step
loop_step-Loops acquiring permit_acquired a a' silent h =
    take_permit-Loops a.available a a' silent h
loop_step-Loops accepting (accept_completed r) a a' silent h =
    moved-Loops (after_accept r a) h (after_accept-Loops r a silent)
loop_step-Loops accepting shutdown_received a a' silent h = if_sent-none a.notified _ a' silent h
loop_step-Loops sleeping delay_over a a' silent h = moved-Loops _ h (silent, λ e. cc)
loop_step-Loops _ _ a a' silent h = cc

cancel-notified : (phase : Phase) (a : Acceptor) → (cancel phase a).notified ≡ a.notified
unfolding cancel
cancel-notified acquiring a = refl
cancel-notified accepting a = refl
cancel-notified sleeping a = refl
cancel-notified stopped a = refl

abbrev IsTold : Server → Type 0
IsTold s = Told s.main s.acceptor

task-Told :
    (e : TaskEvent) (s s' : Server)
    → IsTold s
    → with_acceptor s (task_step e s.acceptor) ≡ some s'
    → IsTold s'
task-Told e s s' p h =
    let (a, moved, is) = with_acceptor-inv s s' (task_step e s.acceptor) h in
    let w = task_step-Worked e s.acceptor a moved in
    subst IsTold is (record {
      notice = w.same_notice ∙ p.notice;
      loops = λ serves over. p.loops serves (sym w.same_phase ∙ over);
    })

finish_loop-Told :
    (phase : Phase) (s s' : Server)
    → s.acceptor.notified ≡ false
    → finish_loop phase s ≡ some s'
    → IsTold s'
unfolding finish_loop
finish_loop-Told stopped s s' silent h =
    subst IsTold (server-inv h) (record { notice = silent; loops = λ e. cc })
finish_loop-Told _ s s' silent h = cc

interrupt-Told : (r : Selected) (s : Server) → s.acceptor.notified ≡ false → IsTold (interrupt r s)
interrupt-Told r s silent = record {
  notice = cancel-notified s.acceptor.phase s.acceptor ∙ silent;
  loops = λ e. cc;
}

close-Told : (n : ℕ) (s s' : Server) → s.acceptor.notified ≡ true → close n s ≡ some s' → IsTold s'
unfolding close
close-Told zero s s' told h =
    subst IsTold (server-inv h) (record { notice = told; loops = λ e. cc })
close-Told (suc n) s s' told h = cc

server_step-Told :
    (m : Main) (e : Event) (s s' : Server)
    → s.main ≡ m
    → IsTold s
    → s.acceptor.notified ≡ was_sent m
    → server_step m e s ≡ some s'
    → IsTold s'
unfolding server_step
server_step-Told serving (loop_event e) s s' at p silent h =
    let (a, moved, is) = with_acceptor-inv s s' (loop_step s.acceptor.phase e s.acceptor) h in
    let (still, loops) = loop_step-Loops s.acceptor.phase e s.acceptor a silent moved in
    subst IsTold is (record { notice = still ∙ ap was_sent (sym at); loops = λ _. loops })
server_step-Told serving loop_finished s s' at p silent h =
    finish_loop-Told s.acceptor.phase s s' silent h
server_step-Told serving interrupted s s' at p silent h =
    subst IsTold (server-inv h) (interrupt-Told ended_well s silent)
server_step-Told serving listener_failed s s' at p silent h =
    subst IsTold (server-inv h) (interrupt-Told ended_badly s silent)
server_step-Told notifying shutdown_sent s s' at p silent h =
    subst IsTold (server-inv h) (record { notice = refl; loops = λ e. cc })
server_step-Told releasing acceptor_dropped s s' at p told h =
    subst IsTold (server-inv h) (record { notice = told; loops = λ e. cc })
server_step-Told half_released sender_dropped s s' at p told h =
    subst IsTold (server-inv h) (record { notice = told; loops = λ e. cc })
server_step-Told draining channel_closed s s' at p told h =
    close-Told (completion_senders s) s s' told h
server_step-Told serving (task_event e) s s' at p told h = task-Told e s s' p h
server_step-Told notifying (task_event e) s s' at p told h = task-Told e s s' p h
server_step-Told releasing (task_event e) s s' at p told h = task-Told e s s' p h
server_step-Told half_released (task_event e) s s' at p told h = task-Told e s s' p h
server_step-Told draining (task_event e) s s' at p told h = task-Told e s s' p h
server_step-Told closed (task_event e) s s' at p told h = task-Told e s s' p h
server_step-Told _ _ s s' at p told h = cc

Reaches-IsTold : {limit : ℕ} (s : Server) → Reaches limit s → IsTold s
Reaches-IsTold s reaches_start = record { notice = refl; loops = λ _ e. cc }
Reaches-IsTold s (reaches_next {s = before} e r h) =
    let p = Reaches-IsTold before r in server_step-Told before.main e before s refl p p.notice h

never_finishes :
    (m : Main) (phase : Phase) (s : Server)
    → (m ≡ serving → phase ≢ stopped)
    → s.acceptor.phase ≡ phase
    → server_step m loop_finished s ≡ none
unfolding server_step finish_loop
never_finishes serving acquiring s loops at = ap (λ p. finish_loop p s) at
never_finishes serving accepting s loops at = ap (λ p. finish_loop p s) at
never_finishes serving sleeping s loops at = ap (λ p. finish_loop p s) at
never_finishes serving stopped s loops at = absurd (loops refl refl)
never_finishes notifying phase s loops at = refl
never_finishes releasing phase s loops at = refl
never_finishes half_released phase s loops at = refl
never_finishes draining phase s loops at = refl
never_finishes closed phase s loops at = refl

-- In every state that the server reaches, the handlers have been sent the shutdown exactly if `main`
-- has gone past that; so the accept loop, which ends only by the shutdown, is never what ends the
-- `select!` of `main`.
pub notice_lem :
    (limit : ℕ) (s : Server)
    → Reaches limit s
    → (s.acceptor.notified ≡ was_sent s.main) × (server_step s.main loop_finished s ≡ none)
notice_lem limit s r =
    let p = Reaches-IsTold s r in (p.notice, never_finishes s.main s.acceptor.phase s p.loops refl)
