-- ===== src/Session.antt =====
-- A requester of src/requester.rs and a handler of src/handler.rs at the two ends of a connection.
pub mod Sizes
pub mod RoundTrip
pub mod Scenario
mod Examples
use mini_redis.Prelude.{
  ℕ, ◌+◌, ◌≤◌, ◌≡◌, refl, sym, ap, ◌∙◌, subst, true, false, Bool-cases, inl, inr, Option, none,
  some, [], ◌++◌, append-nil, length, length-append, arith,
}
use mini_redis.Prelude.Int.{i64_max}
use mini_redis.Text.{Bytes, codes, crlf, bytes_eq, is_utf8, usize_to_string}
use mini_redis.Config.{max_buffered_bytes, max_array_depth, array_length_limit_exclusive}
use mini_redis.Buf.{BufOps, IsBuf}
use mini_redis.Frame.{
  Frame, Frames, simple, error, integer, bulk, null, array, nil, cons, frame_count,
}
use mini_redis.Frame.Grammar.{line}
use mini_redis.Database.Laws.{bytes_eq→eq}
use mini_redis.Frame.Encode.{
  encode, encode_all, IsSendable, sendable_bulk, sendable_array, sendable_nil, sendable_cons,
  sendable_null, sendable_simple,
}
use mini_redis.Stream.{Reply, ok, StreamOps, IsStream, IsReliable}
use mini_redis.Connection.{Connection, write_frame}
use mini_redis.Connection.Write.{Delivers, delivered, interrupted, write_frame_lem}
use mini_redis.Database.{lookup, insert}
use mini_redis.Command.Apply.{stored, stored-IsSendable, ok-IsLine, ok_text}
use mini_redis.Handler.{Handler, read_completed, running, Answer, answer, turn}
use mini_redis.Handler.Turns.{IsReady}
use mini_redis.Handler.Complete.{turn_complete}
use mini_redis.Requester.{
  Request, got, in_time, get_frame, set_frame, get_response, set_response, exchange, get, set,
}
use mini_redis.Requester.Complete.{exchange_complete}
use mini_redis.Requester.Agreement.{get_frame-answered, set_frame-answered}

module _ {S E R F : Type 0} {client_net : StreamOps S E} {server_net : StreamOps R F}
    (client : IsStream client_net) (server : IsStream server_net)
    (to_client : IsReliable client_net) (to_server : IsReliable server_net) where
  -- A new connection on which the requester has written from `c` to `s`, and the handler has gone from
  -- `h` to `h'`: each end reads what the other has sent.
  pub record Joined (c : Connection S) (s : S) (h h' : Handler R) : Type 0 where
    pub client_new : c.buffer ≡ []
    pub client_silent : client.written c.stream ≡ []
    pub server_new : h.connection.buffer ≡ []
    pub server_silent : server.written h.connection.stream ≡ []
    pub up : to_server.pending h.connection.stream ≡ client.sent s
    pub down : to_client.pending s ≡ server.sent h'.connection.stream

Delivers-sent :
    {S E : Type 0} (net : StreamOps S E) (laws : IsStream net) (s s' : S) (t : Bytes)
    (r : Reply E (Unit {0}) × S)
    → Delivers net laws s t r
    → r ≡ (ok tt, s')
    → laws.sent s' ≡ laws.written s ++ t
Delivers-sent net laws s s' t _ (delivered {s' = s₁} w all) e =
    let at : s₁ ≡ s' = ap (λ r. r.1) e in subst (λ y. laws.sent y ≡ laws.written s ++ t) at all
Delivers-sent net laws s s' t _ (interrupted p q split w) e = cc

module _ {S E R F : Type 0} (ops : BufOps) (client_net : StreamOps S E) (server_net : StreamOps R F)
    (buf : IsBuf ops) (client : IsStream client_net) (server : IsStream server_net)
    (to_client : IsReliable client_net) (to_server : IsReliable server_net) (c : Connection S)
    (s : S) (h h' : Handler R) where
  pub exchange_round_trip :
      {A : Type 0} (meaning : Frame → Reply Bytes A) (x : Frame) (a : Answer) (v : A)
      → IsReady h
      → IsSendable 0 x
      → length (encode x) ≤ max_buffered_bytes
      → IsSendable 0 a.reply
      → length (encode a.reply) ≤ max_buffered_bytes
      → answer x h.database h.metrics ≡ some a
      → meaning a.reply ≡ ok v
      → write_frame client_net x c.stream ≡ (ok tt, s)
      → turn ops server_net read_completed h ≡ running h'
      → Joined client server to_client to_server c s h h'
      → (c' : Connection S) × (exchange ops client_net meaning x in_time in_time c ≡ got v c')
        × (c'.buffer ++ to_client.pending c'.stream ≡ [])
        × (h'.database ≡ a.database)
  exchange_round_trip meaning x a v ready sendable small reply_sendable reply_small is means wrote
        goes j =
      let request : client.sent s ≡ encode x =
        Delivers-sent client_net client c.stream s (encode x) (write_frame client_net x c.stream)
          (write_frame_lem client_net client x c.stream) wrote
        ∙ ap (λ w. w ++ encode x) j.client_silent in
      let arrives : h.connection.buffer ++ to_server.pending h.connection.stream ≡ encode x ++ [] =
        ap (λ b. b ++ to_server.pending h.connection.stream) j.server_new
        ∙ j.up
        ∙ request
        ∙ sym (append-nil (encode x)) in
      let (sent, same) =
        turn_complete ops server_net buf server to_server h h' x [] a ready sendable small arrives
          is goes in
      let replied : c.buffer ++ to_client.pending s ≡ encode a.reply ++ [] =
        ap (λ b. b ++ to_client.pending s) j.client_new
        ∙ j.down
        ∙ sent
        ∙ ap (λ w. w ++ encode a.reply) j.server_silent
        ∙ sym (append-nil (encode a.reply)) in
      let (c', gives, behind) =
        exchange_complete ops client_net buf client to_client meaning x a.reply c s [] v
          (omega (arith, ap length j.client_new)) reply_small reply_sendable wrote replied means in
      (c', gives, behind, same)
