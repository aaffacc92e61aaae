-- ===== src/Handler/Shared/Gauges.antt =====
-- The counters of src/metrics.rs while several handlers of src/handler.rs run.
use mini_redis.Prelude.{
  ℕ, zero, suc, ◌+◌, ◌%◌, ◌≡◌, refl, sym, subst, Option, none, some, List, [], ◌∷◌, arith,
}
use mini_redis.Config.{usize_max}
use mini_redis.Frame.{Frame, simple, error, integer, bulk, array, null}
use mini_redis.Database.{Database}
use mini_redis.Command.{get, set, from_frame, apply, Command}
use mini_redis.Command.Parse
use mini_redis.Metrics.{Metrics, fetch_inc, fetch_dec}
use mini_redis.Handler.{count_lookup}
use mini_redis.Handler.Shared.{
  Stage, starting, idle, counted, looked_up, replying, left, dropped, StageEvent, starts, reads,
  leaves, proceeds, replied, reply_failed, Moved, after_apply, execute, stage_step, Shared, step_at,
  Applied, Schedule, interleave,
}
use mini_redis.Handler.Shared.Linear.{head_moved-inv, behind-inv, and_then-inv}

-- Whether a handler runs, and whether it has counted a request and no reply to it.
abbrev pub runs : Stage → ℕ
runs starting = 0
runs idle = 1
runs (counted x) = 1
runs (looked_up y) = 1
runs (replying y) = 1
runs left = 0
runs dropped = 0

abbrev pub owes : Stage → ℕ
owes starting = 0
owes idle = 0
owes (counted x) = 1
owes (looked_up y) = 1
owes (replying y) = 1
owes left = 0
owes dropped = 1

abbrev pub total : (Stage → ℕ) → List Stage → ℕ
total f [] = 0
total f (stage ∷ later) = f stage + total f later

-- The active connections are the handlers that run, and the requests are the replies that were
-- written and those that are owed, modulo 2^64.
pub record Gauges (s : Shared) : Type 0 where
  pub active_are :
      s.metrics.active_connections % (usize_max + 1) ≡ total runs s.stages % (usize_max + 1)
  pub requests_are :
      s.metrics.requests_received % (usize_max + 1)
      ≡ (s.metrics.command_responses_written + total owes s.stages) % (usize_max + 1)

-- What a step adds to the counters, it adds to what it counts.
record Balanced (m m' : Metrics) (run run' owed owed' : ℕ) : Type 0 where
  active :
      (m'.active_connections + run) % (usize_max + 1)
      ≡ (m.active_connections + run') % (usize_max + 1)
  requests :
      (m'.requests_received + (m.command_responses_written + owed)) % (usize_max + 1)
      ≡ (m.requests_received + (m'.command_responses_written + owed')) % (usize_max + 1)

Moves : Metrics → Stage → Moved → Type 0
Moves m stage r = Balanced m r.metrics (runs stage) (runs r.stage) (owes stage) (owes r.stage)

after_apply-Moves :
    (x : Frame) (next : Frame → Stage) (o : Option (Frame × Database)) (db : Database) (m : Metrics)
    → ((y : Frame) → runs (next y) ≡ 1)
    → ((y : Frame) → owes (next y) ≡ 1)
    → Moves m (counted x) (after_apply next o db m)
unfolding Moves after_apply fetch_dec
after_apply-Moves x next none db m r o = record { active = omega arith; requests = omega arith }
after_apply-Moves x next (some (y, db')) db m r o = record {
  active = omega (arith, r y);
  requests = omega (arith, o y);
}

execute-Moves :
    (x : Frame) (r : Parse.Result Command) (db : Database) (m : Metrics)
    → Moves m (counted x) (execute r db m)
unfolding Moves execute fetch_inc
execute-Moves x (Parse.err e) db m = record { active = omega arith; requests = omega arith }
execute-Moves x (Parse.ok (get key)) db m =
    after_apply-Moves x looked_up (apply (get key) db) db m (λ y. refl) (λ y. refl)
execute-Moves x (Parse.ok (set key value)) db m =
    after_apply-Moves x replying (apply (set key value) db) db m (λ y. refl) (λ y. refl)

count_lookup-Balanced : (y : Frame) (m : Metrics) → Balanced m (count_lookup y m) 1 1 1 1
unfolding count_lookup fetch_inc
count_lookup-Balanced (bulk s) m = record { active = omega arith; requests = omega arith }
count_lookup-Balanced null m = record { active = omega arith; requests = omega arith }
count_lookup-Balanced (simple s) m = record { active = omega arith; requests = omega arith }
count_lookup-Balanced (error s) m = record { active = omega arith; requests = omega arith }
count_lookup-Balanced (integer z) m = record { active = omega arith; requests = omega arith }
count_lookup-Balanced (array fs) m = record { active = omega arith; requests = omega arith }

moved-Moves :
    (m : Metrics) (stage : Stage) {r r' : Moved}
    → some r ≡ some r'
    → Moves m stage r
    → Moves m stage r'
moved-Moves m stage {r} {r'} is h = let same : r ≡ r' = cc in subst (Moves m stage) same h

stage_step-Moves :
    (e : StageEvent) (stage : Stage) (db : Database) (m : Metrics) (r : Moved)
    → stage_step e stage db m ≡ some r
    → Moves m stage r
unfolding Moves stage_step fetch_inc fetch_dec
stage_step-Moves starts starting db m r is =
    moved-Moves m starting is (record { active = omega arith; requests = omega arith })
stage_step-Moves (reads x) idle db m r is =
    moved-Moves m idle is (record { active = omega arith; requests = omega arith })
stage_step-Moves leaves idle db m r is =
    moved-Moves m idle is (record { active = omega arith; requests = omega arith })
stage_step-Moves proceeds (counted x) db m r is =
    moved-Moves m (counted x) is (execute-Moves x (from_frame x) db m)
stage_step-Moves proceeds (looked_up y) db m r is =
    moved-Moves m (looked_up y) is (count_lookup-Balanced y m)
stage_step-Moves replied (replying y) db m r is =
    moved-Moves m (replying y) is (record { active = omega arith; requests = omega arith })
stage_step-Moves reply_failed (replying y) db m r is =
    moved-Moves m (replying y) is (record { active = omega arith; requests = omega arith })
stage_step-Moves _ _ db m r is = cc

Steps : Metrics → List Stage → Shared → Type 0
Steps m stages s =
    Balanced m s.metrics (total runs stages) (total runs s.stages) (total owes stages)
      (total owes s.stages)

step_at-Steps :
    (i : ℕ) (e : StageEvent) (stages : List Stage) (db : Database) (m : Metrics) (s : Shared)
    → step_at i e stages db m ≡ some s
    → Steps m stages s
unfolding Steps Moves step_at
step_at-Steps i e [] db m s is = cc
step_at-Steps zero e (stage ∷ later) db m s is =
    let (r, moves, at) = head_moved-inv (stage_step e stage db m) is in
    let h = stage_step-Moves e stage db m r moves in
    subst (λ (y : Shared). Steps m (stage ∷ later) y) (sym at)
      (record { active = omega (arith, h.active); requests = omega (arith, h.requests) })
step_at-Steps (suc i) e (stage ∷ later) db m s is =
    let (s', moves, at) = behind-inv (step_at i e later db m) is in
    let h = step_at-Steps i e later db m s' moves in
    subst (λ (y : Shared). Steps m (stage ∷ later) y) (sym at)
      (record { active = omega (arith, h.active); requests = omega (arith, h.requests) })

Steps-Gauges : (s s' : Shared) → Steps s.metrics s.stages s' → Gauges s → Gauges s'
unfolding Steps
Steps-Gauges s s' h g = record {
  active_are = omega (arith, h.active, g.active_are);
  requests_are = omega (arith, h.requests, g.requests_are);
}

-- However the handlers interleave, the gauges hold where they held before: modulo 2^64, the active
-- connections are the handlers that run, and the requests are the replies that were written and
-- those that a handler still owes or has ended without.
pub interleave-Gauges :
    (steps : List Schedule) (s s' : Shared) (log : List Applied)
    → interleave steps s ≡ some (log, s')
    → Gauges s
    → Gauges s'
unfolding interleave
interleave-Gauges [] s s' log is g = let same : s ≡ s' = cc in subst Gauges same g
interleave-Gauges (t ∷ later) s s' log is g =
    let o = step_at t.handler t.event s.stages s.database s.metrics in
    let (s₁, log₁, stepped, rest, added) = and_then-inv t s o is in
    interleave-Gauges later s₁ s' log₁ rest (
      Steps-Gauges s s₁ (step_at-Steps t.handler t.event s.stages s.database s.metrics s₁ stepped)
        g)
