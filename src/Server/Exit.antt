-- ===== src/Server/Exit.antt =====
-- What `main` of src/bin/server.rs returns.
use mini_redis.Prelude.{
  ℕ, zero, suc, ◌≡◌, ◌≢◌, refl, sym, ap, subst, ◌∙◌, Option, some, List, [], ◌∷◌,
}
use mini_redis.Acceptor.{Phase, stopped, Acceptor}
use mini_redis.Server.{
  Main, serving, notifying, releasing, half_released, draining, closed, Selected, unselected,
  ended_well, ended_badly, Server, new_server, completion_senders, Event, loop_event, task_event,
  loop_finished, interrupted, listener_failed, shutdown_sent, acceptor_dropped, sender_dropped,
  channel_closed, with_acceptor, finish_loop, close, server_step,
}
use mini_redis.Server.Tasks.{server-inv, with_acceptor-inv}

-- What the events say of the result: the first that ends the `select!` decides.
unfoldable pub verdict : List Event → Selected
verdict [] = unselected
verdict (loop_finished ∷ later) = ended_well
verdict (interrupted ∷ later) = ended_well
verdict (listener_failed ∷ later) = ended_badly
verdict (loop_event e ∷ later) = verdict later
verdict (task_event e ∷ later) = verdict later
verdict (shutdown_sent ∷ later) = verdict later
verdict (acceptor_dropped ∷ later) = verdict later
verdict (sender_dropped ∷ later) = verdict later
verdict (channel_closed ∷ later) = verdict later

-- A result that is there already stays.
abbrev outcome : Selected → List Event → Selected
outcome unselected events = verdict events
outcome ended_well events = ended_well
outcome ended_badly events = ended_badly

-- The events happen one after the other.
pub data Happens : Server → List Event → Server → Type 0 where
  happens_end : {s : Server} → Happens s [] s
  happens_next :
      {s s₁ s' : Server} {later : List Event} (e : Event)
      → server_step s.main e s ≡ some s₁
      → Happens s₁ later s'
      → Happens s (e ∷ later) s'

-- A result is there behind the `select!`, and only there.
abbrev pub Decided : Main → Selected → Type 0
Decided serving result = result ≡ unselected
Decided notifying result = result ≢ unselected
Decided releasing result = result ≢ unselected
Decided half_released result = result ≢ unselected
Decided draining result = result ≢ unselected
Decided closed result = result ≢ unselected

abbrev pub IsDecided : Server → Type 0
IsDecided s = Decided s.main s.shutdown_result

-- What a step leaves.
record Leaves (e : Event) (s s' : Server) : Type 0 where
  decided : IsDecided s'
  agrees :
      (later : List Event)
      → outcome s'.shutdown_result later ≡ outcome s.shutdown_result (e ∷ later)

decided-outcome :
    (r : Selected) (e : Event) (later : List Event)
    → r ≢ unselected
    → outcome r later ≡ outcome r (e ∷ later)
decided-outcome unselected e later d = absurd (d refl)
decided-outcome ended_well e later d = refl
decided-outcome ended_badly e later d = refl

-- A step that keeps the result, of a `main` that is decided before and behind it.
keeps :
    (e : Event) (s s' : Server)
    → s.shutdown_result ≢ unselected
    → s'.shutdown_result ≡ s.shutdown_result
    → IsDecided s'
    → Leaves e s s'
keeps e s s' d same there = record {
  decided = there;
  agrees = λ later. ap (λ r. outcome r later) same ∙ decided-outcome s.shutdown_result e later d;
}

-- A task or the loop goes on in the `select!`, and the result is still open.
waits :
    (e : Event) (s s' : Server) (o : Option Acceptor)
    → s.main ≡ serving
    → s.shutdown_result ≡ unselected
    → ((later : List Event) → verdict later ≡ verdict (e ∷ later))
    → with_acceptor s o ≡ some s'
    → Leaves e s s'
waits e s s' o at yet silent h =
    let (a, _, is) = with_acceptor-inv s s' o h in
    subst (Leaves e s) is (record {
      decided = subst (λ m. Decided m s.shutdown_result) (sym at) yet;
      agrees =
          λ later. subst (λ r. outcome r later ≡ outcome r (e ∷ later)) (sym yet) (silent later);
    })

-- A task goes on behind the `select!`.
goes_on :
    (m : Main) (e : Event) (s s' : Server) (o : Option Acceptor)
    → s.main ≡ m
    → Decided m s.shutdown_result
    → s.shutdown_result ≢ unselected
    → with_acceptor s o ≡ some s'
    → Leaves e s s'
goes_on m e s s' o at there d h =
    let (a, _, is) = with_acceptor-inv s s' o h in
    subst (Leaves e s) is (
      keeps e s (record s { acceptor = a }) d refl
        (subst (λ n. Decided n s.shutdown_result) (sym at) there))

selects :
    (e : Event) (s s' : Server)
    → s.shutdown_result ≡ unselected
    → s'.main ≡ notifying
    → ((later : List Event) → s'.shutdown_result ≡ verdict (e ∷ later))
    → s'.shutdown_result ≢ unselected
    → ((later : List Event) → outcome s'.shutdown_result later ≡ s'.shutdown_result)
    → Leaves e s s'
selects e s s' yet at decides d final = record {
  decided = subst (λ m. Decided m s'.shutdown_result) (sym at) d;
  agrees = λ later. final later ∙ decides later ∙ ap (λ r. outcome r (e ∷ later)) (sym yet);
}

well-decided : ended_well ≢ unselected
well-decided e = cc

badly-decided : ended_badly ≢ unselected
badly-decided e = cc

finish_loop-Leaves :
    (phase : Phase) (s s' : Server)
    → s.shutdown_result ≡ unselected
    → finish_loop phase s ≡ some s'
    → Leaves loop_finished s s'
unfolding finish_loop verdict
finish_loop-Leaves stopped s s' yet h =
    subst (Leaves loop_finished s) (server-inv h)
      (selects loop_finished s _ yet refl (λ later. refl) well-decided (λ later. refl))
finish_loop-Leaves _ s s' yet h = cc

close-Leaves :
    (n : ℕ) (s s' : Server)
    → s.shutdown_result ≢ unselected
    → close n s ≡ some s'
    → Leaves channel_closed s s'
unfolding close
close-Leaves zero s s' d h =
    subst (Leaves channel_closed s) (server-inv h)
      (keeps channel_closed s (record s { main = closed }) d refl d)
close-Leaves (suc n) s s' d h = cc

server_step-Leaves :
    (m : Main) (e : Event) (s s' : Server)
    → s.main ≡ m
    → Decided m s.shutdown_result
    → server_step m e s ≡ some s'
    → Leaves e s s'
unfolding server_step verdict
server_step-Leaves serving (loop_event e) s s' at d h =
    waits (loop_event e) s s' _ at d (λ later. refl) h
server_step-Leaves serving (task_event e) s s' at d h =
    waits (task_event e) s s' _ at d (λ later. refl) h
server_step-Leaves serving loop_finished s s' at d h = finish_loop-Leaves s.acceptor.phase s s' d h
server_step-Leaves serving interrupted s s' at d h =
    subst (Leaves interrupted s) (server-inv h)
      (selects interrupted s _ d refl (λ later. refl) well-decided (λ later. refl))
server_step-Leaves serving listener_failed s s' at d h =
    subst (Leaves listener_failed s) (server-inv h)
      (selects listener_failed s _ d refl (λ later. refl) badly-decided (λ later. refl))
server_step-Leaves notifying shutdown_sent s s' at d h =
    subst (Leaves shutdown_sent s) (server-inv h) (keeps shutdown_sent s _ d refl d)
server_step-Leaves releasing acceptor_dropped s s' at d h =
    subst (Leaves acceptor_dropped s) (server-inv h) (keeps acceptor_dropped s _ d refl d)
server_step-Leaves half_released sender_dropped s s' at d h =
    subst (Leaves sender_dropped s) (server-inv h) (keeps sender_dropped s _ d refl d)
server_step-Leaves draining channel_closed s s' at d h =
    close-Leaves (completion_senders s) s s' d h
server_step-Leaves notifying (task_event e) s s' at d h =
    goes_on notifying (task_event e) s s' _ at d d h
server_step-Leaves releasing (task_event e) s s' at d h =
    goes_on releasing (task_event e) s s' _ at d d h
server_step-Leaves half_released (task_event e) s s' at d h =
    goes_on half_released (task_event e) s s' _ at d d h
server_step-Leaves draining (task_event e) s s' at d h =
    goes_on draining (task_event e) s s' _ at d d h
server_step-Leaves closed (task_event e) s s' at d h = goes_on closed (task_event e) s s' _ at d d h
server_step-Leaves _ _ s s' at d h = cc

Happens-outcome :
    (events : List Event) (s s' : Server)
    → IsDecided s
    → Happens s events s'
    → (s'.shutdown_result ≡ outcome s.shutdown_result events) × IsDecided s'
unfolding verdict
Happens-outcome [] s s' d happens_end = (ended s.shutdown_result, d)
  where
    ended : (r : Selected) → r ≡ outcome r []
    ended unselected = refl
    ended ended_well = refl
    ended ended_badly = refl
Happens-outcome (e ∷ later) s s' d (happens_next {s₁ = between} _ h rest) =
    let l = server_step-Leaves s.main e s between refl d h in
    let (same, there) = Happens-outcome later between s' l.decided rest in
    (same ∙ l.agrees later, there)

-- Whatever happens to the server from its start, the result that `main` returns is there exactly if
-- its `select!` is over, and is what the first event that ends the `select!` gives: a success for the
-- end of the loop or Ctrl+C, an error for a failure of the listener of Ctrl+C.
pub exit_lem :
    (limit : ℕ) (events : List Event) (s : Server)
    → Happens (new_server limit) events s
    → (s.shutdown_result ≡ verdict events) × IsDecided s
exit_lem limit events s h = Happens-outcome events (new_server limit) s refl h
