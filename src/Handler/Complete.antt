-- ===== src/Handler/Complete.antt =====
-- A turn of `run` of src/handler.rs whose request arrives.
use mini_redis.Prelude.{◌≤◌, ◌≡◌, sym, ap, ◌∙◌, Option, some, ◌++◌, length}
use mini_redis.Text.{Bytes}
use mini_redis.Config.{max_buffered_bytes}
use mini_redis.Buf.{BufOps, IsBuf}
use mini_redis.Frame.{Frame}
use mini_redis.Frame.Encode.{encode, IsSendable, encode-Spells}
use mini_redis.Stream.{Reply, ok, err, StreamOps, IsStream, IsReliable}
use mini_redis.Connection.{Connection, Run, returned, write_frame}
use mini_redis.Connection.Complete.{read_frame_complete}
use mini_redis.Connection.Rounds.{Fetches, fetched, closed, gave_up, read_frame_lem}
use mini_redis.Connection.Write.{Delivers, delivered, write_frame_lem}
use mini_redis.Handler.{
  Handler, read_completed, Turn, running, Answer, answer, after_write, respond, after_frame, turn,
}
use mini_redis.Handler.Turns.{IsReady}

running-inv :
    {S E : Type 0} {h h' : Handler S} → ◌≡◌ {A = Turn S E} (running h) (running h') → h ≡ h'
running-inv e = cc

module _ {S E : Type 0} (net : StreamOps S E) (laws : IsStream net) where
  -- A read writes nothing.
  pub Fetches-silent :
      (c : Connection S) {r : Run S E (Option Frame)}
      → Fetches net laws c r
      → (x : Frame) (c' : Connection S) → r ≡ returned (some x) c'
      → laws.written c'.stream ≡ laws.written c.stream
  Fetches-silent c (fetched {c' = c₁} arrived t s p small) x c' e =
      let at : c₁ ≡ c' = cc in ap (λ y. laws.written y.stream) (sym at) ∙ p.silent
  Fetches-silent c (closed _ _ _ p) x c' e = cc
  Fetches-silent c (gave_up arrived why p small) x c' e = cc

  -- What a turn that goes on has sent, and the database that it leaves.
  after_write-running :
      (c : Connection S) (a : Answer) (r : Reply E (Unit {0}) × S)
      → Delivers net laws c.stream (encode a.reply) r
      → (h' : Handler S) → after_write net c a r ≡ running h'
      → (laws.sent h'.connection.stream ≡ laws.written c.stream ++ encode a.reply)
        × (h'.database ≡ a.database)
  unfolding after_write
  after_write-running c a (ok u, s) (delivered w all) h' e =
      let same = running-inv e in
      (ap (λ h. laws.sent h.connection.stream) (sym same) ∙ all, ap (λ h. h.database) (sym same))
  after_write-running c a (err x, s) d h' e = cc

-- From a ready handler whose client has sent a request of at most the buffer's budget, a turn that
-- goes on has sent the encoding of the answer behind all that was written before, and leaves the
-- answer's database.
pub turn_complete :
    {S E : Type 0} (ops : BufOps) (net : StreamOps S E) (buf : IsBuf ops) (laws : IsStream net)
    (rel : IsReliable net) (h h' : Handler S) (x : Frame) (rest : Bytes) (a : Answer)
    → IsReady h
    → IsSendable 0 x
    → length (encode x) ≤ max_buffered_bytes
    → h.connection.buffer ++ rel.pending h.connection.stream ≡ encode x ++ rest
    → answer x h.database h.metrics ≡ some a
    → turn ops net read_completed h ≡ running h'
    → (laws.sent h'.connection.stream ≡ laws.written h.connection.stream ++ encode a.reply)
      × (h'.database ≡ a.database)
unfolding turn after_frame respond
turn_complete ops net buf laws rel h h' x rest a ready sendable small ahead is goes =
    let (c, reads, behind) =
      read_frame_complete ops net buf laws rel h.connection x (encode x) rest ready.small small
        (encode-Spells sendable) ahead in
    let silent =
      Fetches-silent net laws h.connection
        (read_frame_lem ops net buf laws h.connection ready.small) x c reads in
    let written : after_write net c a (write_frame net a.reply c.stream) ≡ running h' =
      ap (respond net (record h { connection = c })) (sym is)
      ∙ ap (after_frame net h) (sym reads)
      ∙ goes in
    let (sent, same) =
      after_write-running net laws c a (write_frame net a.reply c.stream)
        (write_frame_lem net laws a.reply c.stream) h' written in
    (sent ∙ ap (λ w. w ++ encode a.reply) silent, same)
