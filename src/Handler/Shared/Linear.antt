-- ===== src/Handler/Shared/Linear.antt =====
-- The commands of several handlers of src/handler.rs on their database.
use mini_redis.Prelude.{
  ℕ, zero, suc, ◌≡◌, refl, sym, ap, ◌∙◌, subst, false, Option, none, some, List, [], ◌∷◌,
}
use mini_redis.Frame.{Frame}
use mini_redis.Database.{Database}
use mini_redis.Command.{Command, get, set, from_frame, apply}
use mini_redis.Command.Parse
use mini_redis.Command.Apply.{store_of, obey, obey_all, after, apply-Obeys}
use mini_redis.Metrics.{Metrics}
use mini_redis.Handler.Shared.{
  Stage, starting, idle, counted, looked_up, replying, StageEvent, starts, reads, leaves, proceeds,
  replied, reply_failed, Moved, after_apply, execute, stage_step, Shared, head_moved, behind,
  step_at, Applied, held_reply, applied_by, applies, stage_at, logged, Schedule, before, and_then,
  interleave,
}

abbrev pub commands : List Applied → List Command
commands [] = []
commands (a ∷ log) = a.command ∷ commands log

abbrev pub replies : List Applied → List (Option Frame)
replies [] = []
replies (a ∷ log) = a.reply ∷ replies log

-- Each of the frames, held.
abbrev pub all_held : List Frame → List (Option Frame)
all_held [] = []
all_held (y ∷ ys) = some y ∷ all_held ys

-- From one sound database to another, the abstract store obeys the command, or nothing happens.
data Serial : Option Applied → Database → Database → Type 0 where
  no_command : {db : Database} → db.poisoned ≡ false → Serial none db db
  one_command :
      {db db' : Database} (c : Command)
      → db'.poisoned ≡ false
      → store_of db' ≡ (obey c (store_of db)).1
      → Serial (some (record { command = c; reply = some (obey c (store_of db)).0 })) db db'

Serial-sound : {a : Option Applied} {db db' : Database} → Serial a db db' → db'.poisoned ≡ false
Serial-sound (no_command sound) = sound
Serial-sound (one_command c sound stores) = sound

-- The command was applied, and what the handler holds behind it is its reply.
abbrev IsApplied : Command → Database → Moved → Type 0
IsApplied c db r = Serial (some (record { command = c; reply = held_reply r.stage })) db r.database

after_apply-Serial :
    (next : Frame → Stage) (c : Command) (db : Database) (m : Metrics)
    → ((y : Frame) → held_reply (next y) ≡ some y)
    → db.poisoned ≡ false
    → IsApplied c db (after_apply next (apply c db) db m)
unfolding after_apply
after_apply-Serial next c db m holds sound =
    let h = apply-Obeys c db sound in
    subst (λ o. IsApplied c db (after_apply next o db m)) (sym h.replies)
      (subst (λ o. Serial (some (record { command = c; reply = o })) db (after c db))
        (sym (holds (obey c (store_of db)).0)) (one_command c h.sound h.stores))

execute-Serial :
    (r : Parse.Result Command) (db : Database) (m : Metrics)
    → db.poisoned ≡ false
    → Serial (applied_by r (execute r db m).stage) db (execute r db m).database
unfolding execute applied_by held_reply
execute-Serial (Parse.err e) db m sound = no_command sound
execute-Serial (Parse.ok (get key)) db m sound =
    after_apply-Serial looked_up (get key) db m (λ y. refl) sound
execute-Serial (Parse.ok (set key value)) db m sound =
    after_apply-Serial replying (set key value) db m (λ y. refl) sound

moved-Serial :
    (e : StageEvent) (stage : Stage) {db : Database} {r r' : Moved}
    → some r ≡ some r'
    → Serial (applies e stage r.stage) db r.database
    → Serial (applies e stage r'.stage) db r'.database
moved-Serial e stage {db} {r} {r'} is h =
    let same : r ≡ r' = cc in
    subst (λ (y : Moved). Serial (applies e stage y.stage) db y.database) same h

stage_step-Serial :
    (e : StageEvent) (stage : Stage) (db : Database) (m : Metrics) (r : Moved)
    → db.poisoned ≡ false
    → stage_step e stage db m ≡ some r
    → Serial (applies e stage r.stage) db r.database
unfolding stage_step applies
stage_step-Serial starts starting db m r sound is =
    moved-Serial starts starting is (no_command sound)
stage_step-Serial (reads x) idle db m r sound is = moved-Serial (reads x) idle is (no_command sound)
stage_step-Serial leaves idle db m r sound is = moved-Serial leaves idle is (no_command sound)
stage_step-Serial proceeds (counted x) db m r sound is =
    moved-Serial proceeds (counted x) is (execute-Serial (from_frame x) db m sound)
stage_step-Serial proceeds (looked_up y) db m r sound is =
    moved-Serial proceeds (looked_up y) is (no_command sound)
stage_step-Serial replied (replying y) db m r sound is =
    moved-Serial replied (replying y) is (no_command sound)
stage_step-Serial reply_failed (replying y) db m r sound is =
    moved-Serial reply_failed (replying y) is (no_command sound)
stage_step-Serial _ _ db m r sound is = cc

pub head_moved-inv :
    {later : List Stage} (o : Option Moved) {s : Shared}
    → head_moved later o ≡ some s
    → (r : Moved) × (o ≡ some r)
      × (s ≡ record { stages = r.stage ∷ later; database = r.database; metrics = r.metrics })
head_moved-inv none is = cc
head_moved-inv (some r) is = (r, refl, cc)

pub behind-inv :
    {stage : Stage} (o : Option Shared) {s : Shared}
    → behind stage o ≡ some s
    → (s' : Shared) × (o ≡ some s') × (s ≡ record s' { stages = stage ∷ s'.stages })
behind-inv none is = cc
behind-inv (some s') is = (s', refl, cc)

step_at-Serial :
    (i : ℕ) (e : StageEvent) (stages : List Stage) (db : Database) (m : Metrics) (s : Shared)
    → db.poisoned ≡ false
    → step_at i e stages db m ≡ some s
    → Serial (applies e (stage_at i stages) (stage_at i s.stages)) db s.database
unfolding step_at stage_at
step_at-Serial i e [] db m s sound is = cc
step_at-Serial zero e (stage ∷ later) db m s sound is =
    let (r, moves, at) = head_moved-inv (stage_step e stage db m) is in
    subst (λ (y : Shared). Serial (applies e stage (stage_at 0 y.stages)) db y.database) (sym at)
      (stage_step-Serial e stage db m r sound moves)
step_at-Serial (suc i) e (stage ∷ later) db m s sound is =
    let (s', moves, at) = behind-inv (step_at i e later db m) is in
    subst
      (λ (y : Shared).
        Serial (applies e (stage_at i later) (stage_at (suc i) y.stages)) db y.database)
      (sym at) (step_at-Serial i e later db m s' sound moves)

-- What the abstract store makes of the commands that were applied, in that order.
pub record Serializes (log : List Applied) (db db' : Database) : Type 0 where
  pub sound : db'.poisoned ≡ false
  pub replies_are : replies log ≡ all_held (obey_all (commands log) (store_of db)).0
  pub stores : store_of db' ≡ (obey_all (commands log) (store_of db)).1

Serial-Serializes :
    {a : Option Applied} {db db₁ db' : Database} (log : List Applied)
    → Serial a db db₁
    → Serializes log db₁ db'
    → Serializes (logged a log) db db'
Serial-Serializes log (no_command sound) h = h
Serial-Serializes log (one_command {db} c sound stores) h = record {
  sound = h.sound;
  replies_are =
      ap (λ ys. some (obey c (store_of db)).0 ∷ ys)
        (h.replies_are ∙ ap (λ m. all_held (obey_all (commands log) m).0) stores);
  stores = h.stores ∙ ap (λ m. (obey_all (commands log) m).1) stores;
}

pub before-inv :
    (a : Option Applied) (o : Option (List Applied × Shared)) {log : List Applied} {s : Shared}
    → before a o ≡ some (log, s)
    → (log' : List Applied) × (o ≡ some (log', s)) × (log ≡ logged a log')
before-inv a none is = cc
before-inv a (some (log', s')) is = (log', cc, cc)

pub and_then-inv :
    (t : Schedule) (s : Shared) (o : Option Shared) {k : Shared → Option (List Applied × Shared)}
    {log : List Applied} {s' : Shared}
    → and_then t s o k ≡ some (log, s')
    → (s₁ : Shared) × (log₁ : List Applied) × (o ≡ some s₁)
      × (k s₁ ≡ some (log₁, s'))
      × (log
          ≡ logged
              (applies t.event (stage_at t.handler s.stages) (stage_at t.handler s₁.stages))
              log₁)
and_then-inv t s none is = cc
and_then-inv t s (some s₁) {k} is =
    let (log₁, rest, added) =
      before-inv (applies t.event (stage_at t.handler s.stages) (stage_at t.handler s₁.stages))
        (k s₁) is in
    (s₁, log₁, refl, rest, added)

-- However the handlers interleave, from a sound database, what each handler holds to send behind a
-- command that it applies is the reply that the abstract store, which the database stands for, gives
-- to it, where the store obeys the commands in the order of their accesses; they leave a sound
-- database that stands for the store that they leave.
pub interleave-Serializes :
    (steps : List Schedule) (s s' : Shared) (log : List Applied)
    → s.database.poisoned ≡ false
    → interleave steps s ≡ some (log, s')
    → Serializes log s.database s'.database
unfolding interleave
interleave-Serializes [] s s' log sound is =
    let none_applied : [] ≡ log = cc in
    let same : s ≡ s' = cc in
    subst (λ l. Serializes l s.database s'.database) none_applied
      (record {
        sound = subst (λ (y : Shared). y.database.poisoned ≡ false) same sound;
        replies_are = refl;
        stores = ap (λ y. store_of y.database) (sym same);
      })
interleave-Serializes (t ∷ later) s s' log sound is =
    let (s₁, log₁, stepped, rest, added) =
      and_then-inv t s (step_at t.handler t.event s.stages s.database s.metrics) is in
    let one = step_at-Serial t.handler t.event s.stages s.database s.metrics s₁ sound stepped in
    subst (λ l. Serializes l s.database s'.database) (sym added)
      (Serial-Serializes log₁ one (interleave-Serializes later s₁ s' log₁ (Serial-sound one) rest))
