-- ===== src/Client/Prints.antt =====
-- What src/bin/client.rs prints where the server of src/bin/server.rs answers it.
use mini_redis.Prelude.{refl, ◌∙◌, ◌++◌, Option, none, some, ◌≤◌, ◌≡◌, ap, true, length}
use mini_redis.Text.{Bytes, codes, is_utf8}
use mini_redis.Config.{max_buffered_bytes}
use mini_redis.Buf.{BufOps, IsBuf}
use mini_redis.Frame.Encode.{encode}
use mini_redis.Stream.{ok, StreamOps, IsStream, IsReliable}
use mini_redis.Connection.{write_frame, new_connection}
use mini_redis.Database.{lookup, insert}
use mini_redis.Command.Apply.{stored}
use mini_redis.Handler.{Handler, read_completed, running, turn}
use mini_redis.Handler.Turns.{IsReady}
use mini_redis.Requester.{in_time, get_frame, set_frame, connect}
use mini_redis.Client.{
  get, set, printed, show_value, show_ok, exit_with, run_command, after_connect, client_main,
}
use mini_redis.Session.{Joined}
use mini_redis.Session.RoundTrip.{get_round_trip, set_round_trip}

show_value_lem :
    (debug : Bytes → Bytes) (o : Option Bytes)
    → show_value debug o
      ≡ elim o [ none ↦ codes "(nil)\n" | some value ↦ debug value ++ codes "\n" ]
unfolding show_value
show_value_lem debug none = refl
show_value_lem debug (some value) = refl

-- The client's `get` of a key of UTF-8, over a new connection to a ready handler on which nothing
-- fails, prints the value that the handler's database holds for the key, in the `Debug` format, or
-- `(nil)` if it holds none, and a line end, if the request and the reply fit the buffer's budget.
pub client_main-get :
    {S E R F : Type 0} (debug : Bytes → Bytes) (ops : BufOps) (client_net : StreamOps S E)
    (server_net : StreamOps R F) (buf : IsBuf ops) (client : IsStream client_net)
    (server : IsStream server_net) (to_client : IsReliable client_net)
    (to_server : IsReliable server_net) (socket s : S) (h h' : Handler R) (key : Bytes)
    → IsReady h
    → is_utf8 key ≡ true
    → length (encode (get_frame key)) ≤ max_buffered_bytes
    → length (encode (stored (lookup key h.database.entries))) ≤ max_buffered_bytes
    → write_frame client_net (get_frame key) socket ≡ (ok tt, s)
    → turn ops server_net read_completed h ≡ running h'
    → Joined client server to_client to_server (new_connection socket) s h h'
    → client_main debug ops client_net (get key) in_time in_time in_time (ok socket)
      ≡ printed (elim (lookup key h.database.entries) [
        | none ↦ codes "(nil)\n"
        | some value ↦ debug value ++ codes "\n"
      ])
unfolding client_main after_connect connect run_command exit_with
client_main-get debug ops client_net server_net buf client server to_client to_server socket s h h'
      key ready u small reply_small wrote goes j =
    let (c', gives, _, _) =
      get_round_trip ops client_net server_net buf client server to_client to_server
        (new_connection socket) s h h' key ready u small reply_small wrote goes j in
    ap (exit_with (show_value debug)) gives
    ∙ ap printed (show_value_lem debug (lookup key h.database.entries))

-- The client's `set` of a key of UTF-8, over such a connection, prints `OK`, and the handler's
-- database then has the value stored for the key, if the request fits the buffer's budget.
pub client_main-set :
    {S E R F : Type 0} (debug : Bytes → Bytes) (ops : BufOps) (client_net : StreamOps S E)
    (server_net : StreamOps R F) (buf : IsBuf ops) (client : IsStream client_net)
    (server : IsStream server_net) (to_client : IsReliable client_net)
    (to_server : IsReliable server_net) (socket s : S) (h h' : Handler R) (key value : Bytes)
    → IsReady h
    → is_utf8 key ≡ true
    → length (encode (set_frame key value)) ≤ max_buffered_bytes
    → write_frame client_net (set_frame key value) socket ≡ (ok tt, s)
    → turn ops server_net read_completed h ≡ running h'
    → Joined client server to_client to_server (new_connection socket) s h h'
    → (client_main debug ops client_net (set key value) in_time in_time in_time (ok socket)
        ≡ printed (codes "OK\n"))
      × (h'.database ≡ record h.database { entries = insert key value h.database.entries })
unfolding client_main after_connect connect run_command exit_with
client_main-set debug ops client_net server_net buf client server to_client to_server socket s h h'
      key value ready u small wrote goes j =
    let (c', gives, _, kept) =
      set_round_trip ops client_net server_net buf client server to_client to_server
        (new_connection socket) s h h' key value ready u small wrote goes j in
    (ap (exit_with show_ok) gives, kept)
