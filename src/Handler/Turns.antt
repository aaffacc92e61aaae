-- ===== src/Handler/Turns.antt =====
-- What the turns of `run` of src/handler.rs leave behind them.
use mini_redis.Prelude.{◌≤◌, ◌≡◌, refl, ◌∙◌, false, List, [], ◌∷◌, ◌++◌, length}
use mini_redis.Text.{Bytes}
use mini_redis.Config.{max_buffered_bytes}
use mini_redis.Frame.{Frame}
use mini_redis.Frame.Grammar.{Spells}
use mini_redis.Database.{Database}
use mini_redis.Metrics.{Metrics, inc_command_responses_written}
use mini_redis.Handler.{Handler, Answer}
use mini_redis.Handler.Answers.{Answers, hit, miss, stores, refuses}

-- Between turns: the mutex is sound and the read buffer within its budget.
pub record IsReady {S : Type 0} (h : Handler S) : Type 0 where
  pub sound : h.database.poisoned ≡ false
  pub small : length h.connection.buffer ≤ max_buffered_bytes

-- The bytes spell the frames one behind the other.
pub data SpellsEach : List Frame → Bytes → Type 0 where
  spells_none : SpellsEach [] []
  spells_more :
      {x : Frame} {t : Bytes} {xs : List Frame} {u : Bytes}
      → Spells 0 x t
      → SpellsEach xs u
      → SpellsEach (x ∷ xs) (t ++ u)

-- The frames are answered one behind the other, each from the database and the counters that the one
-- before it leaves, and each reply is counted as written.
pub data AnswersEach
    : Database → Metrics → List Frame → List Frame → Database → Metrics → Type 0 where
  answers_none : {db : Database} {m : Metrics} → AnswersEach db m [] [] db m
  answers_more :
      {db db' : Database} {m m' : Metrics} {x : Frame} {xs ys : List Frame} {a : Answer}
      → Answers x db m a
      → AnswersEach a.database (inc_command_responses_written a.metrics) xs ys db' m'
      → AnswersEach db m (x ∷ xs) (a.reply ∷ ys) db' m'

pub Answers-active :
    (x : Frame) (db : Database) (m : Metrics) (a : Answer)
    → Answers x db m a
    → a.metrics.active_connections ≡ m.active_connections
Answers-active x db m _ (hit _ _) = refl
Answers-active x db m _ (miss _ _) = refl
Answers-active x db m _ (stores _) = refl
Answers-active x db m _ (refuses _) = refl

pub Answers-sound :
    (x : Frame) (db : Database) (m : Metrics) (a : Answer)
    → db.poisoned ≡ false
    → Answers x db m a
    → a.database.poisoned ≡ false
Answers-sound x db m _ sound (hit _ _) = sound
Answers-sound x db m _ sound (miss _ _) = sound
Answers-sound x db m _ sound (stores _) = sound
Answers-sound x db m _ sound (refuses _) = sound

pub AnswersEach-active :
    {db db' : Database} {m m' : Metrics} {xs ys : List Frame}
    → AnswersEach db m xs ys db' m'
    → m'.active_connections ≡ m.active_connections
AnswersEach-active answers_none = refl
AnswersEach-active {db} {m = m} (answers_more {x = x} {a = a} answers later) =
    AnswersEach-active later ∙ Answers-active x db m a answers
