-- ===== src/Connection/Read.antt =====
-- What `parse_frame` of src/connection.rs does to the read buffer.
use mini_redis.Prelude.{
  ℕ, ◌≤◌, ◌≡◌, refl, ap, ◌∙◌, String, Option, none, some, ◌++◌, arith, le→leb, length, drop,
  length-append, drop-append,
}
use mini_redis.Text.{Bytes}
use mini_redis.Config.{usize_max}
use mini_redis.Buf.{Cursor, IsBuf, contiguous, contiguous-IsBuf, new_cursor, unread}
use mini_redis.Frame.{Frame, incomplete, other}
use mini_redis.Frame.Reader
use mini_redis.Frame.Reader.{Outcome}
use mini_redis.Frame.Parse.{parse}
use mini_redis.Frame.Grammar.{Spells}
use mini_redis.Frame.Exact.{parse_total, parse-Spells_iff}
use mini_redis.Connection.{Connection, framing, Run, returned, failed, take_frame, parse_frame}

pub advance-behind :
    (s t rest : Bytes) (n : ℕ)
    → n ≡ length t
    → s ≡ t ++ rest
    → contiguous.buffer_advance s n ≡ some rest
advance-behind s t rest n at e =
    let room : length t ≤ length s = omega (arith, ap length e ∙ length-append t rest) in
    rw (at, le→leb (length t) (length s) room)
      (ap some (ap (drop (length t)) e ∙ drop-append t rest))

module _ {S E : Type 0} where
  -- One frame off the front of the buffer; or nothing, and the connection as it was.
  pub data TakesFrame (c : Connection S) : Run S E (Option Frame) → Type 0 where
    takes :
        {x : Frame} {c' : Connection S} (t : Bytes)
        → Spells 0 x t
        → c.buffer ≡ t ++ c'.buffer
        → c'.stream ≡ c.stream
        → TakesFrame c (returned (some x) c')
    waits :
        (cursor : Cursor)
        → parse contiguous (new_cursor c.buffer) ≡ Reader.err incomplete cursor
        → TakesFrame c (returned none c)
    refuses :
        (m : String) (cursor : Cursor)
        → parse contiguous (new_cursor c.buffer) ≡ Reader.err (other m) cursor
        → TakesFrame c (failed (framing (other m)) c)

  take_frame-TakesFrame :
      (c : Connection S) (laws : IsBuf contiguous)
      → length c.buffer ≤ usize_max
      → (r : Outcome Frame) → parse contiguous (new_cursor c.buffer) ≡ r
      → TakesFrame c (take_frame contiguous r c)
  unfolding take_frame
  take_frame-TakesFrame c laws fits (Reader.ok x cursor) e =
      let (t, s, took) =
        (parse-Spells_iff contiguous laws (new_cursor c.buffer) fits x cursor).0 e in
      let at_end : cursor.position ≡ length t = ap (λ y. y.position) took.moves ∙ omega arith in
      let room : cursor.position ≤ usize_max =
        omega (arith, ap length took.splits ∙ length-append t (unread cursor)) in
      rw
        (
          take_frame,
          le→leb cursor.position usize_max room,
          advance-behind c.buffer t (unread cursor) cursor.position at_end took.splits,
        )
        (takes t s took.splits refl)
  take_frame-TakesFrame c laws fits (Reader.err incomplete cursor) e = waits cursor e
  take_frame-TakesFrame c laws fits (Reader.err (other m) cursor) e = refuses m cursor e
  take_frame-TakesFrame c laws fits Reader.panicked e =
      absurd ((parse_total contiguous laws (new_cursor c.buffer)).0 e)
  take_frame-TakesFrame c laws fits Reader.out_of_fuel e =
      absurd ((parse_total contiguous laws (new_cursor c.buffer)).1 e)

  pub parse_frame-TakesFrame :
      (c : Connection S) → length c.buffer ≤ usize_max → TakesFrame c (parse_frame contiguous c)
  unfolding parse_frame
  parse_frame-TakesFrame c fits =
      take_frame-TakesFrame c contiguous-IsBuf fits (parse contiguous (new_cursor c.buffer)) refl
