-- ===== src/Frame/Check.antt =====
-- `Frame::check` and `Frame::check_with_depth` of src/frame.rs.
pub mod Payload
pub mod Steady
use mini_redis.Prelude.{ℕ, zero, suc, ◌+◌, ◌&&◌, ◌||◌, ltb, leb, ◌==◌, if◌then◌else◌}
use mini_redis.Prelude.Int.{ℤ, pos, negsuc, pos_part, leb_ℤ, ltb_ℤ, eq_ℤ}
use mini_redis.Text.{cr, lf}
use mini_redis.Config.{max_array_depth, array_length_limit_exclusive}
use mini_redis.Buf.{BufOps}
use mini_redis.Frame.{incomplete, other}
use mini_redis.Frame.Reader.{
  Reader, out_of_fuel, pure, raise, ◌>>=◌, ◌>>◌, or_other, read_u8, skip, usize_try_from,
  usize_checked_add,
}
use mini_redis.Frame.Line.{get_line}
use mini_redis.Frame.Number.{get_decimal}

-- `for _ in 0..n { child?; }`.
unfoldable pub repeat : ℕ → Reader (Unit {0}) → Reader (Unit {0})
repeat zero child = pure tt
repeat (suc n) child = do child; repeat n child

unfoldable pub check_elements : Reader (Unit {0}) → ℤ → Reader (Unit {0})
check_elements child n =
    if leb_ℤ (negsuc 0) n && leb_ℤ n (pos 0)
    then pure tt
    else if leb_ℤ (pos 1) n && ltb_ℤ n (pos array_length_limit_exclusive)
    then repeat (pos_part n) child
    else raise (other "Array length is outside the supported range")

module _ (ops : BufOps) where
  -- `src.get_u8() == b'\r' && src.get_u8() == b'\n'`, which reads the second byte only if the
  -- first fits, and the returns behind it.
  unfoldable pub check_terminator : Reader (Unit {0})
  check_terminator = do
    first ← read_u8 ops
    if first == cr
        then (do
          second ← read_u8 ops
          if second == lf then pure tt else raise (other "Invalid bulk string terminator"))
        else raise (other "Invalid bulk string terminator")

  unfoldable pub check_payload : ℤ → Reader (Unit {0})
  check_payload n = do
    length_usize ← or_other (usize_try_from n) "Bulk string length overflow"
    length_required ← or_other (usize_checked_add length_usize 2) "Bulk string length overflow"
    λ c.
        if leb length_required (ops.remaining c)
        then (do skip ops length_usize; check_terminator) c
        else raise incomplete c

  unfoldable pub check_bulk : ℤ → Reader (Unit {0})
  check_bulk n =
      if eq_ℤ n (negsuc 0)
      then pure tt
      else if leb_ℤ (pos 0) n
      then check_payload n
      else raise (other "Invalid bulk string length")

  -- The match on the marker; `child` checks one element of an array.
  unfoldable pub check_marked : Reader (Unit {0}) → ℕ → ℕ → Reader (Unit {0})
  check_marked child depth marker =
      if marker == b'+' || marker == b'-' || marker == b':'
      then (do get_line ops; pure tt)
      else if marker == b'$'
      then (do n ← get_decimal ops; check_bulk n)
      else if marker == b'*'
      then (if leb max_array_depth depth
          then raise (other "Array nesting depth exceeds the supported limit")
          else (do n ← get_decimal ops; check_elements child n))
      else raise (other "Invalid frame type marker")

  -- Each nested array is one deeper and spends a unit of fuel.
  unfoldable pub check_with_depth : ℕ → ℕ → Reader (Unit {0})
  check_with_depth zero depth = λ _. out_of_fuel
  check_with_depth (suc f) depth = λ c.
      if ltb 0 (ops.remaining c)
      then (do marker ← read_u8 ops; check_marked (check_with_depth f (depth + 1)) depth marker) c
      else raise incomplete c

  -- The depth limit stops the recursion, so one unit more than the limit is enough fuel.
  unfoldable pub check : Reader (Unit {0})
  check = check_with_depth (max_array_depth + 1) 0
