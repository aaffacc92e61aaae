-- ===== src/Handler/Pipeline.antt =====
-- A run of requests on one connection of src/handler.rs.
use mini_redis.Prelude.{◌≤◌, ◌≡◌, refl, sym, ap, ◌∙◌, subst, Option, some, ◌++◌, length}
use mini_redis.Text.{Bytes}
use mini_redis.Config.{max_buffered_bytes}
use mini_redis.Buf.{BufOps, IsBuf}
use mini_redis.Frame.{Frame}
use mini_redis.Frame.Encode.{encode, IsSendable, encode-Spells}
use mini_redis.Stream.{Reply, ok, err, StreamOps, IsStream, IsReliable, IsOpen, Goes, goes}
use mini_redis.Connection.{Connection, Run, returned, write_frame}
use mini_redis.Connection.Complete.{read_frame_complete}
use mini_redis.Connection.Open.{write_frame-Goes}
use mini_redis.Connection.Rounds.{Fetches, fetched, closed, gave_up, read_frame_lem}
use mini_redis.Connection.Write.{Delivers, delivered, interrupted, write_frame_lem}
use mini_redis.Database.{Database}
use mini_redis.Handler.{
  Handler, read_completed, Turn, running, Answer, answer, after_write, respond, after_frame, turn,
}
use mini_redis.Handler.Turns.{IsReady}
use mini_redis.Handler.Complete.{Fetches-silent}

module _ {S E : Type 0} (net : StreamOps S E) (laws : IsStream net) (rel : IsReliable net)
    (open_net : IsOpen net rel.pending) where
  -- A turn that goes on, has sent these bytes, leaves this input, and this database.
  pub record GoesOn (h : Handler S) (r : Turn S E) (sends rest : Bytes) (db : Database)
      : Type 0 where
    pub next : Handler S
    pub goes_on : r ≡ running next
    pub writes : laws.written next.connection.stream ≡ laws.written h.connection.stream ++ sends
    pub flushes : laws.sent next.connection.stream ≡ laws.written next.connection.stream
    pub ahead : next.connection.buffer ++ rel.pending next.connection.stream ≡ rest
    pub small : length next.connection.buffer ≤ max_buffered_bytes
    pub leaves : next.database ≡ db

  after_write-GoesOn :
      (h : Handler S) (c : Connection S) (a : Answer) (rest : Bytes) (r : Reply E (Unit {0}) × S)
      → laws.written c.stream ≡ laws.written h.connection.stream
      → c.buffer ++ rel.pending c.stream ≡ rest
      → length c.buffer ≤ max_buffered_bytes
      → Goes rel.pending c.stream r
      → Delivers net laws c.stream (encode a.reply) r
      → GoesOn h (after_write net c a r) (encode a.reply) rest a.database
  unfolding after_write
  after_write-GoesOn h c a rest (ok u, s) silent behind small (goes kept) (delivered w all) =
      record {
        next = _;
        goes_on = refl;
        writes = w ∙ ap (λ t. t ++ encode a.reply) silent;
        flushes = all ∙ sym w;
        ahead = ap (λ t. c.buffer ++ t) kept ∙ behind;
        small = small;
        leaves = refl;
      }
  after_write-GoesOn h c a rest (err e, s) silent behind small g (interrupted p q split w) =
      elim g [ ]

  Fetches-small :
      (c : Connection S) {r : Run S E (Option Frame)}
      → Fetches net laws c r
      → (x : Frame) (c' : Connection S) → r ≡ returned (some x) c'
      → length c'.buffer ≤ max_buffered_bytes
  Fetches-small c (fetched {c' = c₁} arrived t s p small) x c' e =
      let at : c₁ ≡ c' = cc in
      subst (λ (y : Connection S). length y.buffer ≤ max_buffered_bytes) at small
  Fetches-small c (closed _ _ _ p) x c' e = cc
  Fetches-small c (gave_up arrived why p small) x c' e = cc

  pub turn-GoesOn :
      (ops : BufOps) (buf : IsBuf ops) (h : Handler S) (x : Frame) (rest : Bytes) (a : Answer)
      → IsReady h
      → IsSendable 0 x
      → length (encode x) ≤ max_buffered_bytes
      → h.connection.buffer ++ rel.pending h.connection.stream ≡ encode x ++ rest
      → answer x h.database h.metrics ≡ some a
      → GoesOn h (turn ops net read_completed h) (encode a.reply) rest a.database
  unfolding turn after_frame respond
  turn-GoesOn ops buf h x rest a ready sendable few ahead is =
      let (c, reads, behind) =
        read_frame_complete ops net buf laws rel h.connection x (encode x) rest ready.small few
          (encode-Spells sendable) ahead in
      let fetches = read_frame_lem ops net buf laws h.connection ready.small in
      subst (λ r. GoesOn h (after_frame net h r) (encode a.reply) rest a.database) (sym reads)
        (subst
          (λ o.
            GoesOn h (respond net (record h { connection = c }) o) (encode a.reply) rest a.database)
          (sym is)
          (after_write-GoesOn h c a rest (write_frame net a.reply c.stream)
            (Fetches-silent net laws h.connection fetches x c reads) behind
            (Fetches-small h.connection fetches x c reads)
            (write_frame-Goes net rel.pending open_net a.reply c.stream)
            (write_frame_lem net laws a.reply c.stream)))
