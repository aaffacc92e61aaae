-- ===== src/Requester/Exchange.antt =====
-- What a request of src/requester.rs puts on the stream and takes off it.
use mini_redis.Prelude.{◌≤◌, ◌≡◌, refl, Option, none, some, ◌++◌, length}
use mini_redis.Text.{Bytes}
use mini_redis.Config.{max_buffered_bytes}
use mini_redis.Buf.{BufOps, IsBuf}
use mini_redis.Frame.{Frame}
use mini_redis.Frame.Encode.{encode}
use mini_redis.Frame.Grammar.{Spells}
use mini_redis.Stream.{Reply, ok, err, StreamOps, IsStream}
use mini_redis.Connection
use mini_redis.Connection.{Connection, Run, returned, failed, read_frame, write_frame}
use mini_redis.Connection.Write.{Delivers, delivered, write_frame_lem}
use mini_redis.Connection.Rounds.{Fetches, fetched, Passes, read_frame_lem}
use mini_redis.Requester.{
  Request, got, failed_with, timed_out, RequestError, Timeout, in_time, too_late, conclude,
  after_response, after_request, exchange,
}

module _ {S E A : Type 0} (net : StreamOps S E) (laws : IsStream net)
    (meaning : Frame → Reply Bytes A) where
  -- How a request `x` ends: with the meaning of a frame that came in behind the request, written and
  -- flushed whole; with an error; or by a timeout.
  pub data Exchanged (x : Frame) (c : Connection S) : Request S E A → Type 0 where
    completed :
        {a : A} {c' : Connection S} (s : S) (y : Frame) (arrived t : Bytes)
        → laws.written s ≡ laws.written c.stream ++ encode x
        → laws.sent s ≡ laws.written c.stream ++ encode x
        → Spells 0 y t
        → Passes net laws (record c { stream = s }) c' arrived t
        → meaning y ≡ ok a
        → Exchanged x c (got a c')
    refused : {e : RequestError E} {c' : Connection S} → Exchanged x c (failed_with e c')
    expired : Exchanged x c timed_out

  module _ (x : Frame) (c : Connection S) (s : S)
      (whole : laws.written s ≡ laws.written c.stream ++ encode x)
      (flushed : laws.sent s ≡ laws.written c.stream ++ encode x) where
    conclude-Exchanged :
        (y : Frame) (c' : Connection S) (arrived t : Bytes) (r : Reply Bytes A)
        → Spells 0 y t
        → Passes net laws (record c { stream = s }) c' arrived t
        → meaning y ≡ r
        → Exchanged x c (conclude r c')
    unfolding conclude
    conclude-Exchanged y c' arrived t (ok a) spells p is =
        completed s y arrived t whole flushed spells p is
    conclude-Exchanged y c' arrived t (err string) spells p is = refused

    after_response-Exchanged :
        (reading : Timeout) (r : Run S E (Option Frame))
        → Fetches net laws (record c { stream = s }) r
        → Exchanged x c (after_response meaning reading r)
    unfolding after_response
    after_response-Exchanged too_late r h = expired
    after_response-Exchanged in_time (returned (some y) c') (fetched arrived t spells p small) =
        conclude-Exchanged y c' arrived t (meaning y) spells p refl
    after_response-Exchanged in_time (returned none c') h = refused
    after_response-Exchanged in_time (failed e c') h = refused
    after_response-Exchanged in_time Connection.panicked h = elim h [ ]
    after_response-Exchanged in_time Connection.out_of_fuel h = elim h [ ]

  after_request-Exchanged :
      (x : Frame) (c : Connection S) (later : Connection S → Request S E A) (writing : Timeout)
      (r : Reply E (Unit {0}) × S)
      → Delivers net laws c.stream (encode x) r
      → ((s : S)
          → laws.written s ≡ laws.written c.stream ++ encode x
          → laws.sent s ≡ laws.written c.stream ++ encode x
          → Exchanged x c (later (record c { stream = s })))
      → Exchanged x c (after_request c later writing r)
  unfolding after_request
  after_request-Exchanged x c later too_late r d next = expired
  after_request-Exchanged x c later in_time (ok u, s) (delivered whole flushed) next =
      next s whole flushed
  after_request-Exchanged x c later in_time (err e, s) d next = refused

-- From a buffer within its budget, a request ends, with no panic. Where it returns a value, it had
-- written and flushed its whole command, and then took one complete frame off the input, of which
-- the value is the meaning; any later input stays in the buffer.
pub exchange_lem :
    {S E A : Type 0} (net : StreamOps S E) (laws : IsStream net) (ops : BufOps) (buf : IsBuf ops)
    (meaning : Frame → Reply Bytes A) (x : Frame) (writing reading : Timeout) (c : Connection S)
    → length c.buffer ≤ max_buffered_bytes
    → Exchanged net laws meaning x c (exchange ops net meaning x writing reading c)
unfolding exchange
exchange_lem net laws ops buf meaning x writing reading c small =
    after_request-Exchanged net laws meaning x c
      (λ c₁. after_response meaning reading (read_frame ops net c₁)) writing
      (write_frame net x c.stream) (write_frame_lem net laws x c.stream)
      (λ s whole flushed.
        after_response-Exchanged net laws meaning x c s whole flushed reading
          (read_frame ops net (record c { stream = s }))
          (read_frame_lem ops net buf laws (record c { stream = s }) small))
