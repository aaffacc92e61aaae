-- ===== src/Session/RoundTrip.antt =====
-- GET and SET from the requester of src/requester.rs to the handler of src/handler.rs and back.
use mini_redis.Prelude.{
  ◌≤◌, ◌≡◌, sym, ap, ◌∙◌, subst, true, Bool-cases, inl, inr, Option, none, some, [], ◌++◌, length,
  arith,
}
use mini_redis.Text.{Bytes, codes, bytes_eq, is_utf8}
use mini_redis.Config.{max_buffered_bytes}
use mini_redis.Buf.{BufOps, IsBuf}
use mini_redis.Frame.{Frame, simple, error, integer, bulk, null, array}
use mini_redis.Database.Laws.{bytes_eq→eq}
use mini_redis.Frame.Encode.{encode, IsSendable, sendable_simple}
use mini_redis.Stream.{ok, StreamOps, IsStream, IsReliable}
use mini_redis.Connection.{Connection, write_frame}
use mini_redis.Database.{lookup, insert}
use mini_redis.Command.Apply.{stored, stored-IsSendable, ok-IsLine, ok_text}
use mini_redis.Handler.{Handler, read_completed, running, turn}
use mini_redis.Handler.Turns.{IsReady}
use mini_redis.Requester.{got, in_time, get_frame, set_frame, get_response, set_response, get, set}
use mini_redis.Requester.Agreement.{get_frame-answered, set_frame-answered}
use mini_redis.Session.{Joined, exchange_round_trip}
use mini_redis.Session.Sizes.{length-encode_bulk, get_frame-IsSendable, set_frame-IsSendable}

-- The replies that mean success.
get_response-inv : (x : Frame) (o : Option Bytes) → get_response x ≡ ok o → x ≡ stored o
unfolding get_response
get_response-inv (bulk s) (some v) e = cc
get_response-inv (bulk s) none e = cc
get_response-inv null none e = cc
get_response-inv null (some v) e = cc
get_response-inv (simple s) o e = cc
get_response-inv (error s) o e = cc
get_response-inv (integer z) o e = cc
get_response-inv (array fs) o e = cc

set_response-inv : (x : Frame) → set_response x ≡ ok tt → x ≡ simple (codes "OK")
unfolding set_response
set_response-inv (simple s) e = elim (Bool-cases (bytes_eq s (codes "OK"))) [
  | inl same ↦ ap simple (bytes_eq→eq s (codes "OK") same)
  | inr differs ↦ absurd (ground arith)
]
set_response-inv (bulk s) e = cc
set_response-inv null e = cc
set_response-inv (error s) e = cc
set_response-inv (integer z) e = cc
set_response-inv (array fs) e = cc

ok_small : length (encode (simple (codes "OK"))) ≤ max_buffered_bytes
unfolding encode
ok_small = omega arith

stored_small :
    (o : Option Bytes) → length (encode (stored o)) ≤ max_buffered_bytes → IsSendable 0 (stored o)
stored_small o small =
    stored-IsSendable o
      (λ v is. omega (arith, length-encode_bulk v, ap (λ o. length (encode (stored o))) is))

-- A requester's `get` for a key of UTF-8, over a new connection to a ready handler on which nothing
-- fails, returns what the handler's database holds for the key, and leaves the database as it was, if
-- the request and the reply fit the buffer's budget.
pub get_round_trip :
    {S E R F : Type 0} (ops : BufOps) (client_net : StreamOps S E) (server_net : StreamOps R F)
    (buf : IsBuf ops) (client : IsStream client_net) (server : IsStream server_net)
    (to_client : IsReliable client_net) (to_server : IsReliable server_net) (c : Connection S)
    (s : S) (h h' : Handler R) (key : Bytes)
    → IsReady h
    → is_utf8 key ≡ true
    → length (encode (get_frame key)) ≤ max_buffered_bytes
    → length (encode (stored (lookup key h.database.entries))) ≤ max_buffered_bytes
    → write_frame client_net (get_frame key) c.stream ≡ (ok tt, s)
    → turn ops server_net read_completed h ≡ running h'
    → Joined client server to_client to_server c s h h'
    → (c' : Connection S) × (get ops client_net key in_time in_time c
        ≡ got (lookup key h.database.entries) c')
      × (c'.buffer ++ to_client.pending c'.stream ≡ [])
      × (h'.database ≡ h.database)
unfolding get
get_round_trip ops client_net server_net buf client server to_client to_server c s h h' key ready u
      small reply_small wrote goes j =
    let (a, is, means, same) = get_frame-answered key h.database h.metrics u ready.sound in
    let reply : a.reply ≡ stored (lookup key h.database.entries) =
      get_response-inv a.reply (lookup key h.database.entries) means in
    let (c', gives, behind, kept) =
      exchange_round_trip ops client_net server_net buf client server to_client to_server c s h h'
        get_response (get_frame key) a (lookup key h.database.entries) ready
        (get_frame-IsSendable key small) small
        (subst (IsSendable 0) (sym reply)
          (stored_small (lookup key h.database.entries) reply_small))
        (omega (arith, reply_small, ap (λ x. length (encode x)) reply)) is means wrote goes j in
    (c', gives, behind, kept ∙ same)

-- A requester's `set` for a key of UTF-8, over such a connection, succeeds, and leaves a database with
-- the value stored for the key, if the request fits the buffer's budget.
pub set_round_trip :
    {S E R F : Type 0} (ops : BufOps) (client_net : StreamOps S E) (server_net : StreamOps R F)
    (buf : IsBuf ops) (client : IsStream client_net) (server : IsStream server_net)
    (to_client : IsReliable client_net) (to_server : IsReliable server_net) (c : Connection S)
    (s : S) (h h' : Handler R) (key value : Bytes)
    → IsReady h
    → is_utf8 key ≡ true
    → length (encode (set_frame key value)) ≤ max_buffered_bytes
    → write_frame client_net (set_frame key value) c.stream ≡ (ok tt, s)
    → turn ops server_net read_completed h ≡ running h'
    → Joined client server to_client to_server c s h h'
    → (c' : Connection S) × (set ops client_net key value in_time in_time c ≡ got tt c')
      × (c'.buffer ++ to_client.pending c'.stream ≡ [])
      × (h'.database ≡ record h.database { entries = insert key value h.database.entries })
unfolding set
set_round_trip ops client_net server_net buf client server to_client to_server c s h h' key value
      ready u small wrote goes j =
    let (a, is, means, same) = set_frame-answered key value h.database h.metrics u ready.sound in
    let reply : a.reply ≡ simple (codes "OK") = set_response-inv a.reply means in
    let (c', gives, behind, kept) =
      exchange_round_trip ops client_net server_net buf client server to_client to_server c s h h'
        set_response (set_frame key value) a tt ready (set_frame-IsSendable key value small) small
        (subst (IsSendable 0) (sym reply) (sendable_simple ok-IsLine ok_text))
        (omega (arith, ok_small, ap (λ x. length (encode x)) reply)) is means wrote goes j in
    (c', gives, behind, kept ∙ same)
