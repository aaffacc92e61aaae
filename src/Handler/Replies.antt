-- ===== src/Handler/Replies.antt =====
-- The frames that `run` of src/handler.rs answers with.
use mini_redis.Prelude.{
  ◌≡◌, refl, sym, ◌∙◌, subst, Bool, true, false, not, List, Option, ◌&&◌, some, [], ◌∷◌, ◌≤◌,
  length, arith, ◌==◌,
}
use mini_redis.Prelude.Int.{i64_max}
use mini_redis.Text.{Bytes, codes, is_utf8, cr, lf}
use mini_redis.Frame.{Frame, Frames, error}
use mini_redis.Frame.Line.Exact.{IsLine}
use mini_redis.Frame.Encode.{
  IsSendable, sendable_error, sendable_bulk, sendable_null, sendable_simple,
}
use mini_redis.Database.{Database, lookup}
use mini_redis.Command.Parse
use mini_redis.Command.Rejects.{
  Kind, missing, wrong_type, not_text, Misfits, MisfitsAll, first, later, extra, Rejects, no_array,
  no_name, bad_get, bad_set, unsupported,
}
use mini_redis.Command.Apply.{ok-IsLine, ok_text}
use mini_redis.Metrics.{Metrics}
use mini_redis.Handler.{Answer, answer}
use mini_redis.Handler.Answers.{Answers, hit, miss, stores, refuses, answer_lem}

-- Neither a carriage return nor a line feed.
abbrev is_line : Bytes → Bool
is_line [] = true
is_line (b ∷ s) = not (b == cr) && (not (b == lf) && is_line s)

is_line-IsLine : (s : Bytes) → is_line s ≡ true → IsLine s
is_line-IsLine [] h = tt
is_line-IsLine (b ∷ s) h = ((ground arith, ground arith), is_line-IsLine s (ground arith))

error-IsSendable : (t : Bytes) → is_line t ≡ true → is_utf8 t ≡ true → IsSendable 0 (error t)
error-IsSendable t l u = sendable_error (is_line-IsLine t l) u

abbrev IsReport : Parse.Error → Type 0
IsReport e = IsSendable 0 (error (Parse.error_text e))

Misfits-IsReport : {k : Kind} {fs : Frames} {e : Parse.Error} → Misfits k fs e → IsReport e
unfolding Parse.error_text is_utf8
Misfits-IsReport missing = error-IsSendable (codes "No more command arguments") refl refl
Misfits-IsReport (wrong_type not_carried) =
    error-IsSendable (codes "Expected a bulk or simple string argument") refl refl
Misfits-IsReport (not_text h bad) = error-IsSendable (codes "Argument is not valid UTF-8") refl refl

MisfitsAll-IsReport :
    {ks : List Kind} {fs : Frames} {e : Parse.Error} → MisfitsAll ks fs e → IsReport e
unfolding Parse.error_text is_utf8
MisfitsAll-IsReport (first wrong) = Misfits-IsReport wrong
MisfitsAll-IsReport (later fits wrong) = MisfitsAll-IsReport wrong
MisfitsAll-IsReport extra = error-IsSendable (codes "Unexpected extra argument") refl refl

Rejects-IsReport : {x : Frame} {e : Parse.Error} → Rejects x e → IsReport e
unfolding Parse.error_text is_utf8
Rejects-IsReport (no_array is_none) = error-IsSendable (codes "Expected an array frame") refl refl
Rejects-IsReport (no_name wrong) = Misfits-IsReport wrong
Rejects-IsReport (bad_get h u g wrong) = MisfitsAll-IsReport wrong
Rejects-IsReport (bad_set h u g wrong) = MisfitsAll-IsReport wrong
Rejects-IsReport (unsupported h u not_get not_set) =
    error-IsSendable (codes "Unsupported command; expected GET or SET") refl refl

Answers-IsSendable :
    {x : Frame} {db : Database} {m : Metrics} {a : Answer}
    → ((k v : Bytes) → lookup k db.entries ≡ some v → length v ≤ i64_max)
    → Answers x db m a
    → IsSendable 0 a.reply
Answers-IsSendable few (hit {key} {value} asks held) = sendable_bulk (few key value held)
Answers-IsSendable few (miss asks none_held) = sendable_null
Answers-IsSendable few (stores asks) = sendable_simple ok-IsLine ok_text
Answers-IsSendable few (refuses wrong) = Rejects-IsReport wrong

-- Every reply with which a handler answers a frame, an error included, is a frame within the limits
-- of the parser, if the mutex is sound and every stored value fits an `i64` in length.
pub answer-IsSendable :
    (x : Frame) (db : Database) (m : Metrics) (a : Answer)
    → db.poisoned ≡ false
    → ((k v : Bytes) → lookup k db.entries ≡ some v → length v ≤ i64_max)
    → answer x db m ≡ some a
    → IsSendable 0 a.reply
answer-IsSendable x db m a sound few is =
    let (a₁, is₁, answers) = answer_lem x db m sound in
    let same : ◌≡◌ {A = Option Answer} (some a₁) (some a) = sym is₁ ∙ is in
    subst (λ (b : Answer). IsSendable 0 b.reply) {x = a₁} {y = a} (cc)
      (Answers-IsSendable few answers)
