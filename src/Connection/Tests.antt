-- ===== src/Connection/Tests.antt =====
-- The tests of src/connection.rs that read up to the buffer's budget and that write, over the network in
-- memory. What the client writes arrives in any pieces.
use mini_redis.Prelude.{
  ℕ, ◌+◌, ◌-◌, ◌≤◌, ◌≡◌, refl, sym, ap, ◌∙◌, Bool, true, false, ◌&&◌, some, List, [], ◌++◌,
  append-nil, arith, length, length-append,
}
use mini_redis.Prelude.Int.{pos}
use mini_redis.Text.{Bytes, codes, crlf, bytes_eq, usize_to_string, i64_to_string}
use mini_redis.Config.{max_buffered_bytes}
use mini_redis.Buf.{contiguous, contiguous-IsBuf}
use mini_redis.Frame.{Frame, simple, error, integer, bulk, array, null, nil, cons}
use mini_redis.Frame.Encode.{encode, IsSendable, sendable_integer, encode-Spells}
use mini_redis.Stream.{Reply, ok, err}
use mini_redis.Connection.{
  Connection, new_connection, returned, failed, message, read_frame, write_frame, write_data,
  write_line,
}
use mini_redis.Connection.Memory.{
  Memory, memory, memory-IsStream, memory-IsReliable, arriving, joined,
}
use mini_redis.Connection.Complete.{read_frame_complete}
use mini_redis.Connection.Overflow.{read_frame_overflow}
use mini_redis.Connection.Letters.{
  letters, encoded, letters-IsSendable, length-letters, length-encoded, encode-letters, zero_text,
}

-- The server's end, with the pieces in which the client's bytes arrive.
abbrev server : List Bytes → Connection Memory
server chunks = new_connection (arriving chunks)

-- The read fails for want of room.
abbrev NoRoom : List Bytes → Type 0
NoRoom chunks =
    (c : Connection Memory) × (read_frame contiguous memory (server chunks)
      ≡ failed (message "Frame cannot fit within the buffer limit") c)
    × (length c.buffer ≡ max_buffered_bytes)

abbrev TestConnectionReadFrameOverBufferLimit : Type 0
TestConnectionReadFrameOverBufferLimit =
    (chunks : List Bytes) → joined chunks ≡ encoded (max_buffered_bytes + 1 - 3) → NoRoom chunks

abbrev TestConnectionReadFrameUnterminatedAtBufferLimit : Type 0
TestConnectionReadFrameUnterminatedAtBufferLimit =
    (chunks : List Bytes) → joined chunks ≡ codes "+" ++ letters max_buffered_bytes → NoRoom chunks

over :
    (n : ℕ)
    → n + 3 ≡ max_buffered_bytes + 1
    → (chunks : List Bytes) → joined chunks ≡ encoded n
    → NoRoom chunks
unfolding memory-IsReliable
over n is chunks e =
    read_frame_overflow contiguous memory contiguous-IsBuf memory-IsStream memory-IsReliable
      (server chunks) (simple (letters n)) (encode (simple (letters n))) (encoded n) [] []
      (omega arith) (encode-Spells (letters-IsSendable n))
      (encode-letters n ∙ sym (append-nil (encoded n))) (omega (arith, length-encoded n))
      (omega (arith, ap length (encode-letters n), length-encoded n))
      (omega (arith, ap length (encode-letters n), length-encoded n))
      (e ∙ sym (append-nil (encoded n)))

TestConnectionReadFrameOverBufferLimit_passes : TestConnectionReadFrameOverBufferLimit
TestConnectionReadFrameOverBufferLimit_passes = over (max_buffered_bytes + 1 - 3) (omega arith)

unterminated :
    (n : ℕ)
    → n ≡ max_buffered_bytes
    → (chunks : List Bytes) → joined chunks ≡ codes "+" ++ letters n
    → NoRoom chunks
unfolding memory-IsReliable
unterminated n is chunks e =
    read_frame_overflow contiguous memory contiguous-IsBuf memory-IsStream memory-IsReliable
      (server chunks) (simple (letters n)) (encode (simple (letters n))) (codes "+" ++ letters n)
      crlf [] (omega arith) (encode-Spells (letters-IsSendable n)) (encode-letters n)
      (omega (arith, length-letters n))
      (omega (arith, ap length (encode-letters n), length-encoded n))
      (omega (arith, ap length (encode-letters n), length-encoded n))
      (e ∙ sym (append-nil (codes "+" ++ letters n)))

TestConnectionReadFrameUnterminatedAtBufferLimit_passes :
    TestConnectionReadFrameUnterminatedAtBufferLimit
TestConnectionReadFrameUnterminatedAtBufferLimit_passes = unterminated max_buffered_bytes refl

-- Two reads give these frames.
abbrev Reads : List Bytes → Frame → Frame → Type 0
Reads chunks x y =
    (c : Connection Memory) × (c' : Connection Memory) × (read_frame contiguous memory
        (server chunks)
      ≡ returned (some x) c)
    × (read_frame contiguous memory c ≡ returned (some y) c')

two-Reads :
    (chunks : List Bytes) (x y : Frame)
    → IsSendable 0 x
    → IsSendable 0 y
    → length (encode x) ≤ max_buffered_bytes
    → length (encode y) ≤ max_buffered_bytes
    → joined chunks ≡ encode x ++ encode y
    → Reads chunks x y
unfolding memory-IsReliable
two-Reads chunks x y hx hy small_x small_y e =
    let (c, first, behind) =
      read_frame_complete contiguous memory contiguous-IsBuf memory-IsStream memory-IsReliable
        (server chunks) x (encode x) (encode y) (omega arith) small_x (encode-Spells hx) e in
    let (c', second, _) =
      read_frame_complete contiguous memory contiguous-IsBuf memory-IsStream memory-IsReliable c y
        (encode y) []
        (omega
          (arith, ap length behind, length-append c.buffer (memory-IsReliable.pending c.stream)))
        small_y (encode-Spells hy) (behind ∙ sym (append-nil (encode y))) in
    (c, c', first, second)

abbrev TestConnectionReadFrameMaxSizeThenSmall : Type 0
TestConnectionReadFrameMaxSizeThenSmall =
    (chunks : List Bytes)
    → joined chunks ≡ encoded (max_buffered_bytes - 3) ++ codes ":0\r\n"
    → Reads chunks (simple (letters (max_buffered_bytes - 3))) (integer (pos 0))

abbrev TestConnectionReadFrameSmallThenMaxSize : Type 0
TestConnectionReadFrameSmallThenMaxSize =
    (chunks : List Bytes)
    → joined chunks ≡ codes ":0\r\n" ++ encoded (max_buffered_bytes - 3)
    → Reads chunks (integer (pos 0)) (simple (letters (max_buffered_bytes - 3)))

max_then_small :
    (n : ℕ)
    → n + 3 ≡ max_buffered_bytes
    → (chunks : List Bytes) → joined chunks ≡ encoded n ++ codes ":0\r\n"
    → Reads chunks (simple (letters n)) (integer (pos 0))
max_then_small n is chunks e =
    two-Reads chunks (simple (letters n)) (integer (pos 0)) (letters-IsSendable n)
      (sendable_integer (omega arith))
      (omega (arith, ap length (encode-letters n), length-encoded n))
      (omega (arith, ap length zero_text)) (e ∙ (λ i. sym (encode-letters n) i ++ sym zero_text i))

small_then_max :
    (n : ℕ)
    → n + 3 ≡ max_buffered_bytes
    → (chunks : List Bytes) → joined chunks ≡ codes ":0\r\n" ++ encoded n
    → Reads chunks (integer (pos 0)) (simple (letters n))
small_then_max n is chunks e =
    two-Reads chunks (integer (pos 0)) (simple (letters n)) (sendable_integer (omega arith))
      (letters-IsSendable n) (omega (arith, ap length zero_text))
      (omega (arith, ap length (encode-letters n), length-encoded n))
      (e ∙ (λ i. sym zero_text i ++ sym (encode-letters n) i))

TestConnectionReadFrameMaxSizeThenSmall_passes : TestConnectionReadFrameMaxSizeThenSmall
TestConnectionReadFrameMaxSizeThenSmall_passes =
    max_then_small (max_buffered_bytes - 3) (omega arith)

TestConnectionReadFrameSmallThenMaxSize_passes : TestConnectionReadFrameSmallThenMaxSize
TestConnectionReadFrameSmallThenMaxSize_passes =
    small_then_max (max_buffered_bytes - 3) (omega arith)

-- A frame is written, and the client reads these bytes behind those that it has read.
abbrev delivered : Bytes → (Memory → Bool) → Reply (Unit {0}) (Unit {0}) × Memory → Memory → Bool
delivered expected later (ok u, s') s = bytes_eq s'.sent (s.sent ++ expected) && later s'
delivered expected later (err e, s') s = false

abbrev writes : Frame → Bytes → (Memory → Bool) → Memory → Bool
writes x expected later s = delivered expected later (write_frame memory x s) s

abbrev test_connection_write_frame : Bool
test_connection_write_frame =
    writes (simple (codes "Hello, World!")) (codes "+Hello, World!\r\n")
      (writes (error (codes "Error 404 Not Found")) (codes "-Error 404 Not Found\r\n") (
        writes (integer (pos 42)) (codes ":42\r\n") (
          writes (bulk (codes "foobar")) (codes "$6\r\nfoobar\r\n") (
            writes
              (array (
                cons
                  (array
                    (cons (integer (pos 1)) (cons (integer (pos 2)) (cons (integer (pos 3)) nil))))
                  (cons (array (cons (simple (codes "Foo")) (cons (error (codes "Bar")) nil)))
                    nil)))
              (codes "*2\r\n*3\r\n:1\r\n:2\r\n:3\r\n*2\r\n+Foo\r\n-Bar\r\n")
              (writes null (codes "$-1\r\n") (λ _. true))))))
      (arriving [])

test_connection_write_frame_passes : test_connection_write_frame ≡ true
unfolding write_frame write_data write_line usize_to_string i64_to_string bytes_eq
test_connection_write_frame_passes = refl
