-- ===== src/Handler/Serves.antt =====
-- What a turn of `run` of src/handler.rs reads from the client and writes back to it.
use mini_redis.Prelude.{
  refl, ◌∙◌, ◌≡◌, ◌≤◌, length, sym, ap, subst, false, Option, none, some, [], ◌++◌,
}
use mini_redis.Text.{Bytes}
use mini_redis.Buf.{BufOps, IsBuf}
use mini_redis.Frame.{Frame, error}
use mini_redis.Frame.Encode.{encode}
use mini_redis.Frame.Grammar.{Spells}
use mini_redis.Stream.{Reply, ok, err, StreamOps, IsStream}
use mini_redis.Connection
use mini_redis.Connection.{
  Connection, Failure, io, failure_text, Run, returned, failed, read_frame, write_frame,
}
use mini_redis.Connection.Write.{Delivers, delivered, interrupted, write_frame_lem}
use mini_redis.Connection.Quiet.{write_frame-quiet}
use mini_redis.Config.{max_buffered_bytes}
use mini_redis.Connection.Causes.{Because}
use mini_redis.Connection.Rounds.{Fetches, fetched, closed, gave_up, Passes, read_frame_lem}
use mini_redis.Metrics.{inc_command_responses_written}
use mini_redis.Handler.{
  Handler, read_completed, Turn, running, finished, gave_error, Answer, after_write, respond,
  after_frame, turn,
}
use mini_redis.Handler.Answers.{Answers, answer_lem}
use mini_redis.Handler.Turns.{IsReady}

module _ {S E : Type 0} (net : StreamOps S E) (laws : IsStream net) where
  -- How a turn that reads ends: a frame is taken off the input and its answer written and flushed,
  -- or the write fails behind a part of the answer; the input has ended; or the read fails, and its
  -- error is written, in part if that fails too.
  pub data Serves (h : Handler S) : Turn S E → Type 0 where
    served :
        {x : Frame} {c : Connection S} {a : Answer} {s : S} (arrived t : Bytes)
        → Spells 0 x t
        → Passes net laws h.connection c arrived t
        → Answers x h.database h.metrics a
        → laws.written s ≡ laws.written c.stream ++ encode a.reply
        → laws.sent s ≡ laws.written s
        → laws.received s ≡ laws.received c.stream
        → length c.buffer ≤ max_buffered_bytes
        → Serves h (
            running (record {
              connection = record c { stream = s };
              database = a.database;
              metrics = inc_command_responses_written a.metrics;
            }))
    interrupted_reply :
        {x : Frame} {c : Connection S} {a : Answer} {s : S} {e : E} (arrived t p q : Bytes)
        → Spells 0 x t
        → Passes net laws h.connection c arrived t
        → Answers x h.database h.metrics a
        → encode a.reply ≡ p ++ q
        → laws.written s ≡ laws.written c.stream ++ p
        → write_frame net a.reply c.stream ≡ (err e, s)
        → Serves h (
            gave_error (io e) (record {
              connection = record c { stream = s };
              database = a.database;
              metrics = a.metrics;
            }))
    ended :
        {c : Connection S}
        → Passes net laws h.connection c [] []
        → c.buffer ≡ []
        → net.read_buf max_buffered_bytes h.connection.stream ≡ (ok [], c.stream)
        → Serves h (finished (record h { connection = c }))
    reported :
        {e : Failure E} {c : Connection S} {s : S} (arrived : Bytes)
        → Because net c e
        → Passes net laws h.connection c arrived []
        → laws.written s ≡ laws.written c.stream ++ encode (error (failure_text net.error_text e))
        → laws.sent s ≡ laws.written s
        → Serves h (gave_error e (record h { connection = record c { stream = s } }))
    report_failed :
        {e : Failure E} {c : Connection S} {s : S} {x : E} (arrived p q : Bytes)
        → Because net c e
        → Passes net laws h.connection c arrived []
        → encode (error (failure_text net.error_text e)) ≡ p ++ q
        → laws.written s ≡ laws.written c.stream ++ p
        → write_frame net (error (failure_text net.error_text e)) c.stream ≡ (err x, s)
        → Serves h (gave_error e (record h { connection = record c { stream = s } }))

  write-Serves :
      (h : Handler S) (x : Frame) (c : Connection S) (a : Answer) (arrived t : Bytes)
      (r : Reply E (Unit {0}) × S)
      → Spells 0 x t
      → Passes net laws h.connection c arrived t
      → Answers x h.database h.metrics a
      → write_frame net a.reply c.stream ≡ r
      → length c.buffer ≤ max_buffered_bytes
      → Delivers net laws c.stream (encode a.reply) r
      → Serves h (after_write net c a r)
  unfolding after_write
  write-Serves h x c a arrived t (ok _, s) spells p answers wrote small (delivered w all) =
      served arrived t spells p answers w (subst (λ b. laws.sent s ≡ b) (sym w) all)
        (ap (λ y. laws.received y.1) (sym wrote) ∙ write_frame-quiet net laws a.reply c.stream)
        small
  write-Serves h x c a arrived t (err e, s) spells p answers wrote small (interrupted u v split w) =
      interrupted_reply arrived t u v spells p answers split w wrote

  report-Serves :
      (h : Handler S) (e : Failure E) (c : Connection S) (arrived : Bytes)
      → Because net c e
      → (r : Reply E (Unit {0}) × S) → Passes net laws h.connection c arrived []
      → write_frame net (error (failure_text net.error_text e)) c.stream ≡ r
      → Delivers net laws c.stream (encode (error (failure_text net.error_text e))) r
      → Serves h (gave_error e (record h { connection = record c { stream = r.1 } }))
  report-Serves h e c arrived why (ok _, s) p wrote (delivered w all) =
      reported arrived why p w (all ∙ sym w)
  report-Serves h e c arrived why (err x, s) p wrote (interrupted u v split w) =
      report_failed arrived u v why p split w wrote

  after_frame-Serves :
      (h : Handler S) (r : Run S E (Option Frame))
      → h.database.poisoned ≡ false
      → Fetches net laws h.connection r
      → Serves h (after_frame net h r)
  unfolding after_frame respond
  after_frame-Serves h (returned (some x) c) sound (fetched arrived t spells p small) =
      let (a, is, answers) = answer_lem x h.database h.metrics sound in
      subst (λ o. Serves h (respond net (record h { connection = c }) o)) (sym is)
        (write-Serves h x c a arrived t (write_frame net a.reply c.stream) spells p answers refl
          small (write_frame_lem net laws a.reply c.stream))
  after_frame-Serves h (returned none c) sound (closed _ empty read p) = ended p empty read
  after_frame-Serves h (failed e c) sound (gave_up arrived why p small) =
      report-Serves h e c arrived why
        (write_frame net (error (failure_text net.error_text e)) c.stream) p refl
        (write_frame_lem net laws (error (failure_text net.error_text e)) c.stream)
  after_frame-Serves h Connection.panicked sound e = elim e [ ]
  after_frame-Serves h Connection.out_of_fuel sound e = elim e [ ]

-- A turn whose read completes, from a sound mutex and a buffer within its budget, takes one frame
-- off the input and writes and flushes the encoding of its answer, or ends with the error of that
-- write behind a prefix of it; or ends where the read of an empty buffer is at EOF; or the read fails
-- with one of its causes, and the turn ends with that error, having written and flushed its text as an
-- error frame, or a prefix of that if the write fails.
pub turn_lem :
    {S E : Type 0} (net : StreamOps S E) (laws : IsStream net) (ops : BufOps) (buf : IsBuf ops)
    (h : Handler S)
    → IsReady h
    → Serves net laws h (turn ops net read_completed h)
unfolding turn
turn_lem net laws ops buf h ready =
    after_frame-Serves net laws h (read_frame ops net h.connection) ready.sound
      (read_frame_lem ops net buf laws h.connection ready.small)
