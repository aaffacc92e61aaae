-- ===== src/Frame/Parse.antt =====
-- `Frame::parse` and `Frame::parse_data` of src/frame.rs.
pub mod Steady
use mini_redis.Prelude.{ℕ, zero, suc, ◌+◌, ◌||◌, ◌==◌, if◌then◌else◌}
use mini_redis.Prelude.Int.{ℤ, negsuc, pos_part, eq_ℤ}
use mini_redis.Text.{from_utf8}
use mini_redis.Config.{max_array_depth}
use mini_redis.Buf.{BufOps}
use mini_redis.Frame.{Frame, Frames, other, simple, error, integer, bulk, array, null, nil, cons}
use mini_redis.Frame.Reader.{
  Reader, out_of_fuel, pure, raise, ◌>>=◌, ◌>>◌, or_panic, or_other, read_u8, skip, usize_try_from,
}
use mini_redis.Frame.Line.{slice, get_line}
use mini_redis.Frame.Number.{get_decimal}
use mini_redis.Frame.Check.{check}

-- `for _ in 0..n { elements.push(child?); }`.
unfoldable pub collect : ℕ → Reader Frame → Reader Frames
collect zero child = pure nil
collect (suc n) child = do f ← child; fs ← collect n child; pure (cons f fs)

unfoldable pub parse_elements : Reader Frame → ℤ → Reader Frame
parse_elements child n = if eq_ℤ n (negsuc 0) then pure null else (do
  or_other (usize_try_from n) "Array length overflow"
  fs ← collect (pos_part n) child
  pure (array fs))

module _ (ops : BufOps) where
  unfoldable pub parse_string : ℕ → Reader Frame
  parse_string marker = do
    content ← get_line ops
    string ← or_other (from_utf8 content) "Invalid UTF-8"
    if marker == b'+' then pure (simple string) else pure (error string)

  unfoldable pub parse_bulk : ℤ → Reader Frame
  parse_bulk n = if eq_ℤ n (negsuc 0) then pure null else (do
    length_usize ← or_other (usize_try_from n) "Bulk string length overflow"
    bytes ← λ c. or_panic (slice (ops.chunk c) 0 length_usize) c
    skip ops (length_usize + 2)
    pure (bulk bytes))

  -- The match on the marker; `child` decodes one element of an array.
  unfoldable pub parse_marked : Reader Frame → ℕ → Reader Frame
  parse_marked child marker =
      if marker == b'+' || marker == b'-'
      then parse_string marker
      else if marker == b':'
      then (do n ← get_decimal ops; pure (integer n))
      else if marker == b'$'
      then (do n ← get_decimal ops; parse_bulk n)
      else if marker == b'*'
      then (do n ← get_decimal ops; parse_elements child n)
      else raise (other "Invalid frame type marker")

  unfoldable pub parse_data : ℕ → Reader Frame
  parse_data zero = λ _. out_of_fuel
  parse_data (suc f) = do marker ← read_u8 ops; parse_marked (parse_data f) marker

  -- The structural check leaves the cursor behind the frame; the position is then put back.
  unfoldable pub parse : Reader Frame
  parse c =
      let start_position = c.position in
      (do
        check ops
        λ c'. parse_data (max_array_depth + 1) (record c' { position = start_position }))
        c
