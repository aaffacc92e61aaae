-- ===== src/Client.antt =====
-- src/bin/client.rs: one command of the command line, over a new connection. The arguments come
-- parsed; `debug` is the `Debug` format of `Bytes`, and `socket` what `TcpStream::connect` gives.
pub mod Prints
mod Examples
use mini_redis.Prelude.{Option, none, some, ◌++◌}
use mini_redis.Text.{Bytes, codes}
use mini_redis.Buf.{BufOps}
use mini_redis.Stream.{Reply, ok, err, StreamOps}
use mini_redis.Connection.{Connection}
use mini_redis.Requester.{
  RequestError, elapsed, Request, got, failed_with, timed_out, panicked, out_of_fuel, Timeout,
  connect,
}
use mini_redis.Requester

pub data CliCommand : Type 0 where
  get : (key : Bytes) → CliCommand
  set : (key value : Bytes) → CliCommand

-- How `main` ends: with what it printed, or with an error.
pub data Exit (E : Type 0) : Type 0 where
  printed : Bytes → Exit E
  main_failed : RequestError E → Exit E
  main_panicked main_out_of_fuel : Exit E

-- `println!`.
abbrev pub println : Bytes → Bytes
println text = text ++ codes "\n"

-- The match on the reply to GET.
unfoldable pub show_value : (Bytes → Bytes) → Option Bytes → Bytes
show_value debug (some value) = println (debug value)
show_value debug none = println (codes "(nil)")

abbrev pub show_ok : Unit {0} → Bytes
show_ok u = println (codes "OK")

-- `?` behind a request.
unfoldable pub exit_with : {S E A : Type 0} → (A → Bytes) → Request S E A → Exit E
exit_with show (got a c) = printed (show a)
exit_with show (failed_with e c) = main_failed e
exit_with show timed_out = main_failed elapsed
exit_with show panicked = main_panicked
exit_with show out_of_fuel = main_out_of_fuel

module _ {S E : Type 0} (debug : Bytes → Bytes) (ops : BufOps) (net : StreamOps S E) where
  -- Step 3, with the fates of the timeouts on the request and on the response.
  unfoldable pub run_command : CliCommand → Timeout → Timeout → Connection S → Exit E
  run_command (get key) writing reading requester =
      exit_with (show_value debug) (Requester.get ops net key writing reading requester)
  run_command (set key value) writing reading requester =
      exit_with show_ok (Requester.set ops net key value writing reading requester)

  unfoldable pub after_connect :
      CliCommand → Timeout → Timeout → Reply (RequestError E) (Connection S) → Exit E
  after_connect command writing reading (ok requester) =
      run_command command writing reading requester
  after_connect command writing reading (err e) = main_failed e

  unfoldable pub client_main : CliCommand → Timeout → Timeout → Timeout → Reply E S → Exit E
  client_main command connecting writing reading socket =
      after_connect command writing reading (connect connecting socket)
