-- ===== src/Connection/Causes.antt =====
-- Why `read_frame` of src/connection.rs fails.
use mini_redis.Prelude.{◌-◌, ◌≡◌, ◌≢◌, String, [], length}
use mini_redis.Config.{max_buffered_bytes}
use mini_redis.Buf.{contiguous, new_cursor, Cursor}
use mini_redis.Frame.{incomplete, other}
use mini_redis.Frame.Reader
use mini_redis.Frame.Parse.{parse}
use mini_redis.Stream.{ok, err, StreamOps}
use mini_redis.Connection.{Connection, Failure, framing, message, io}

-- The cause of an error beside the connection that is left: the parser's refusal of what is buffered;
-- a full buffer that holds no whole frame; the end of the input behind a part of a frame; or the error
-- of the last read.
pub data Because {S E : Type 0} (net : StreamOps S E) (c : Connection S) : Failure E → Type 0 where
  malformed :
      (m : String) (cursor : Cursor)
      → parse contiguous (new_cursor c.buffer) ≡ Reader.err (other m) cursor
      → Because net c (framing (other m))
  no_room :
      (cursor : Cursor)
      → parse contiguous (new_cursor c.buffer) ≡ Reader.err incomplete cursor
      → length c.buffer ≡ max_buffered_bytes
      → Because net c (message "Frame cannot fit within the buffer limit")
  broken_off :
      (s : S) (cursor : Cursor)
      → parse contiguous (new_cursor c.buffer) ≡ Reader.err incomplete cursor
      → c.buffer ≢ []
      → net.read_buf (max_buffered_bytes - length c.buffer) s ≡ (ok [], c.stream)
      → Because net c (message "Connection reached EOF with an incomplete frame")
  stream_failed :
      (s : S) (x : E)
      → net.read_buf (max_buffered_bytes - length c.buffer) s ≡ (err x, c.stream)
      → Because net c (io x)
