-- ===== src/Connection.antt =====
-- src/connection.rs: one buffered connection. Its methods are functions of the connection that
-- return the new one; a `Box<dyn Error>` is a `Failure`.
pub mod Write
pub mod Quiet
pub mod Causes
pub mod Read
pub mod Rounds
pub mod Memory
pub mod Complete
pub mod Open
pub mod Cut
pub mod Overflow
pub mod Truncated
pub mod Letters
mod Tests
mod Examples
use mini_redis.Prelude.{
  ℕ, zero, suc, ◌+◌, ◌-◌, ◌≡◌, String, Bool, true, false, Option, none, some, [], ◌∷◌, ◌++◌, leb,
  if◌then◌else◌, length,
}
use mini_redis.Text.{Bytes, codes, crlf, usize_to_string, i64_to_string}
use mini_redis.Config.{max_buffered_bytes, usize_max}
use mini_redis.Buf.{Cursor, BufOps, new_cursor}
use mini_redis.Frame.{
  Frame, Frames, simple, error, integer, bulk, array, null, nil, cons, frame_count, error_text,
  incomplete, other,
}
use mini_redis.Frame
use mini_redis.Frame.Reader
use mini_redis.Frame.Reader.{Outcome}
use mini_redis.Frame.Parse.{parse}
use mini_redis.Stream.{Reply, ok, err, Io, StreamOps}

pub record Connection (S : Type 0) : Type 0 where
  pub stream : S
  pub buffer : Bytes

-- `Connection::new`.
abbrev pub new_connection : {S : Type 0} → S → Connection S
new_connection s = record { stream = s; buffer = [] }

-- The errors that the methods box: of the frame parser, a message, or of the stream.
pub data Failure (E : Type 0) : Type 0 where
  framing : Frame.Error → Failure E
  message : String → Failure E
  io : E → Failure E

-- `to_string` of a boxed error.
unfoldable pub failure_text : {E : Type 0} → (E → Bytes) → Failure E → Bytes
failure_text text (framing e) = error_text e
failure_text text (message m) = codes m
failure_text text (io e) = text e

-- How a method ends: with a value or an error, beside the connection that it leaves; by a panic; or
-- for want of fuel, which has no counterpart in the program.
pub data Run (S E A : Type 0) : Type 0 where
  returned : A → Connection S → Run S E A
  failed : Failure E → Connection S → Run S E A
  panicked out_of_fuel : Run S E A

module _ {S E : Type 0} (ops : BufOps) where
  -- The match in `parse_frame`; the conversion of the position and the advance may panic.
  unfoldable pub take_frame : Outcome Frame → Connection S → Run S E (Option Frame)
  take_frame (Reader.ok x cursor) c =
      if leb cursor.position usize_max
      then elim (ops.buffer_advance c.buffer cursor.position) [
        | none ↦ panicked
        | some rest ↦ returned (some x) (record c { buffer = rest })
      ]
      else panicked
  take_frame (Reader.err incomplete cursor) c = returned none c
  take_frame (Reader.err (other m) cursor) c = failed (framing (other m)) c
  take_frame Reader.panicked c = panicked
  take_frame Reader.out_of_fuel c = out_of_fuel

  unfoldable pub parse_frame : Connection S → Run S E (Option Frame)
  parse_frame c = take_frame (parse ops (new_cursor c.buffer)) c

module _ {S E : Type 0} (net : StreamOps S E) where
  -- Steps 4 and 5 of a round behind the read; `again` makes the next round.
  unfoldable pub after_read :
      (Connection S → Run S E (Option Frame))
      → Connection S
      → Reply E Bytes × S
      → Run S E (Option Frame)
  after_read again c (err e, s) = failed (io e) (record c { stream = s })
  after_read again c (ok (b ∷ bytes), s) =
      again (record { stream = s; buffer = c.buffer ++ b ∷ bytes })
  after_read again c (ok [], s) =
      let c' = record c { stream = s } in
      elim c.buffer [
        | [] ↦ returned none c'
        | b ∷ rest ↦ failed (message "Connection reached EOF with an incomplete frame") c'
      ]

  -- A round behind the attempt to parse.
  unfoldable pub after_parse :
      (Connection S → Run S E (Option Frame)) → Run S E (Option Frame) → Run S E (Option Frame)
  after_parse again (returned (some x) c) = returned (some x) c
  after_parse again (returned none c) =
      let reading =
        after_read again c (net.read_buf (max_buffered_bytes - length c.buffer) c.stream) in
      if leb max_buffered_bytes (length c.buffer)
      then failed (message "Frame cannot fit within the buffer limit") c
      else reading
  after_parse again (failed e c) = failed e c
  after_parse again panicked = panicked
  after_parse again out_of_fuel = out_of_fuel

module _ {S E : Type 0} (ops : BufOps) (net : StreamOps S E) where
  -- `loop { … }`: a unit of fuel for each round.
  unfoldable pub read_rounds : ℕ → Connection S → Run S E (Option Frame)
  read_rounds zero c = out_of_fuel
  read_rounds (suc f) c = after_parse net (read_rounds f) (parse_frame ops c)

  -- A round that does not end the loop has added a byte, and the buffer is bounded.
  unfoldable pub read_frame : Connection S → Run S E (Option Frame)
  read_frame = read_rounds (max_buffered_bytes + 1)

-- `?` over awaited calls.
module _ {S E A B : Type 0} where
  abbrev pub and_then : Reply E A × S → (A → Io S E B) → Reply E B × S
  and_then (ok a, s) f = f a s
  and_then (err e, s) f = (err e, s)

  infixl 5 ◌>>=◌ ◌>>◌
  abbrev pub ◌>>=◌ : Io S E A → (A → Io S E B) → Io S E B
  ◌>>=◌ m f s = and_then (m s) f

  abbrev pub ◌>>◌ : Io S E A → Io S E B → Io S E B
  ◌>>◌ m k s = and_then (m s) (λ _. k)

abbrev pub done : {S E : Type 0} → Io S E (Unit {0})
done s = (ok tt, s)

module _ {S E : Type 0} (net : StreamOps S E) where
  -- A marker, a text and CRLF.
  unfoldable pub write_line : ℕ → Bytes → Io S E (Unit {0})
  write_line marker text = do net.write_u8 marker; net.write_all text; net.write_all crlf

  unfoldable mutual
    pub write_data : Frame → Io S E (Unit {0})
    write_data (simple s) = write_line b'+' s
    write_data (error s) = write_line b'-' s
    write_data (integer z) = write_line b':' (i64_to_string z)
    write_data (bulk s) = do
      write_line b'$' (usize_to_string (length s))
      net.write_all s
      net.write_all crlf
    write_data (array fs) = do write_line b'*' (usize_to_string (frame_count fs)); write_elements fs
    write_data null = net.write_all (codes "$-1\r\n")

    -- `for element in elements`.
    pub write_elements : Frames → Io S E (Unit {0})
    write_elements nil = done
    write_elements (cons x fs) = do write_data x; write_elements fs

  unfoldable pub write_frame : Frame → Io S E (Unit {0})
  write_frame x = do write_data x; net.flush
