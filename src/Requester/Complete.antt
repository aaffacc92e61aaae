-- ===== src/Requester/Complete.antt =====
-- A request of src/requester.rs whose reply arrives.
use mini_redis.Prelude.{◌≤◌, ◌≡◌, ap, ◌∙◌, ◌++◌, length}
use mini_redis.Text.{Bytes}
use mini_redis.Config.{max_buffered_bytes}
use mini_redis.Buf.{BufOps, IsBuf}
use mini_redis.Frame.{Frame}
use mini_redis.Frame.Encode.{encode, IsSendable, encode-Spells}
use mini_redis.Stream.{Reply, ok, StreamOps, IsStream, IsReliable}
use mini_redis.Connection.{Connection, read_frame, write_frame}
use mini_redis.Connection.Complete.{read_frame_complete}
use mini_redis.Requester.{got, in_time, conclude, after_response, after_request, exchange}

pub exchange_complete :
    {S E A : Type 0} (ops : BufOps) (net : StreamOps S E) (buf : IsBuf ops) (laws : IsStream net)
    (rel : IsReliable net) (meaning : Frame → Reply Bytes A) (x y : Frame) (c : Connection S)
    (s : S) (rest : Bytes) (v : A)
    → length c.buffer ≤ max_buffered_bytes
    → length (encode y) ≤ max_buffered_bytes
    → IsSendable 0 y
    → write_frame net x c.stream ≡ (ok tt, s)
    → c.buffer ++ rel.pending s ≡ encode y ++ rest
    → meaning y ≡ ok v
    → (c' : Connection S) × (exchange ops net meaning x in_time in_time c ≡ got v c')
      × (c'.buffer ++ rel.pending c'.stream ≡ rest)
unfolding exchange after_request after_response conclude
exchange_complete ops net buf laws rel meaning x y c s rest v fits small h wrote ahead is =
    let (c', reads, behind) =
      read_frame_complete ops net buf laws rel (record c { stream = s }) y (encode y) rest fits
        small (encode-Spells h) ahead in
    (
      c',
      ap (after_request c (λ c₁. after_response meaning in_time (read_frame ops net c₁)) in_time)
            wrote
          ∙ ap (after_response meaning in_time) reads
          ∙ ap (λ r. conclude r c') is,
      behind,
    )
