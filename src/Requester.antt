-- ===== src/Requester.antt =====
-- src/requester.rs: the client's side of GET and SET over one connection.
pub mod Agreement
pub mod Exchange
pub mod Complete
mod Examples
use mini_redis.Prelude.{Bool, true, false, Option, none, some, if◌then◌else◌}
use mini_redis.Text.{Bytes, codes, bytes_eq}
use mini_redis.Buf.{BufOps}
use mini_redis.Frame.{Frame, Frames, simple, error, integer, bulk, array, null, nil, cons}
use mini_redis.Stream.{Reply, ok, err, StreamOps}
use mini_redis.Connection
use mini_redis.Connection.{
  Connection, Failure, io, Run, returned, failed, read_frame, write_frame, new_connection,
}

-- The boxed errors of a request: of the connection, of a timeout, or a text.
pub data RequestError (E : Type 0) : Type 0 where
  connection : Failure E → RequestError E
  elapsed : RequestError E
  text : Bytes → RequestError E

-- `Requester` is its connection. How a request ends: with a value or an error, beside the connection
-- that it leaves, or by a timeout, which cancels the call within and leaves a connection that must
-- not be used again.
pub data Request (S E A : Type 0) : Type 0 where
  got : A → Connection S → Request S E A
  failed_with : RequestError E → Connection S → Request S E A
  timed_out panicked out_of_fuel : Request S E A

-- Whether `timeout` lets the call within complete.
pub data Timeout : Type 0 where
  in_time too_late : Timeout

-- `Requester::connect`, over the reply of `TcpStream::connect`.
unfoldable pub connect :
    {S E : Type 0} → Timeout → Reply E S → Reply (RequestError E) (Connection S)
connect too_late r = err elapsed
connect in_time (ok socket) = ok (new_connection socket)
connect in_time (err e) = err (connection (io e))

-- Step 1 of `get` and of `set`.
abbrev pub get_frame : Bytes → Frame
get_frame key = array (cons (bulk (codes "GET")) (cons (bulk key) nil))

abbrev pub set_frame : Bytes → Bytes → Frame
set_frame key value = array (cons (bulk (codes "SET")) (cons (bulk key) (cons (bulk value) nil)))

-- Step 4 of `get` and of `set`; an error is its text.
unfoldable pub get_response : Frame → Reply Bytes (Option Bytes)
get_response (bulk bytes) = ok (some bytes)
get_response null = ok none
get_response (error string) = err string
get_response (simple s) = err (codes "Unexpected response frame type")
get_response (integer z) = err (codes "Unexpected response frame type")
get_response (array fs) = err (codes "Unexpected response frame type")

unfoldable pub set_response : Frame → Reply Bytes (Unit {0})
set_response (simple string) = if bytes_eq string (codes "OK") then ok tt else err string
set_response (error string) = err string
set_response (bulk s) = err (codes "Unexpected response frame type")
set_response null = err (codes "Unexpected response frame type")
set_response (integer z) = err (codes "Unexpected response frame type")
set_response (array fs) = err (codes "Unexpected response frame type")

module _ {S E A : Type 0} where
  unfoldable pub conclude : Reply Bytes A → Connection S → Request S E A
  conclude (ok a) c = got a c
  conclude (err string) c = failed_with (text string) c

  -- Steps 3 and 4.
  unfoldable pub after_response :
      (Frame → Reply Bytes A) → Timeout → Run S E (Option Frame) → Request S E A
  after_response meaning too_late r = timed_out
  after_response meaning in_time (returned (some x) c) = conclude (meaning x) c
  after_response meaning in_time (returned none c) =
      failed_with (text (codes "Server closed its sending side before a response arrived")) c
  after_response meaning in_time (failed e c) = failed_with (connection e) c
  after_response meaning in_time Connection.panicked = panicked
  after_response meaning in_time Connection.out_of_fuel = out_of_fuel

  -- Step 2, then `later` with the connection behind it.
  unfoldable pub after_request :
      Connection S
      → (Connection S → Request S E A)
      → Timeout
      → Reply E (Unit {0}) × S
      → Request S E A
  after_request c later too_late r = timed_out
  after_request c later in_time (ok u, s) = later (record c { stream = s })
  after_request c later in_time (err e, s) =
      failed_with (connection (io e)) (record c { stream = s })

module _ {S E : Type 0} (ops : BufOps) (net : StreamOps S E) where
  -- The steps that `get` and `set` share, with the fates of the two timeouts.
  unfoldable pub exchange :
      {A : Type 0}
      → (Frame → Reply Bytes A)
      → Frame
      → Timeout
      → Timeout
      → Connection S
      → Request S E A
  exchange meaning x writing reading c =
      after_request c (λ c₁. after_response meaning reading (read_frame ops net c₁)) writing
        (write_frame net x c.stream)

  -- `Requester::get` and `Requester::set`.
  unfoldable pub get : Bytes → Timeout → Timeout → Connection S → Request S E (Option Bytes)
  get key = exchange get_response (get_frame key)

  unfoldable pub set : Bytes → Bytes → Timeout → Timeout → Connection S → Request S E (Unit {0})
  set key value = exchange set_response (set_frame key value)
