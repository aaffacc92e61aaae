-- ===== src/Frame/Number.antt =====
-- `Frame::get_decimal` of src/frame.rs.
pub mod Rounds
pub mod Exact
pub mod Steady
use mini_redis.Prelude.{ℕ, zero, suc, ◌-◌, Bool, not, ◌&&◌, ltb, ◌==◌, if◌then◌else◌, length}
use mini_redis.Prelude.Int.{ℤ, pos, negsuc, ◌*ℤ◌, checked_mul, checked_add, eq_ℤ}
use mini_redis.Text.{Bytes, in_range}
use mini_redis.Buf.{BufOps}
use mini_redis.Frame.{other}
use mini_redis.Frame.Reader.{Reader, out_of_fuel, pure, raise, ◌>>=◌, or_panic, or_other}
use mini_redis.Frame.Line.{get_line}

abbrev pub is_digit : ℕ → Bool
is_digit = in_range b'0' b'9'

-- The sign and the accumulator after the first byte.
abbrev pub first_byte : ℕ → Reader (ℤ × ℤ)
first_byte b =
    if b == b'-'
    then pure (negsuc 0, pos 0)
    else if is_digit b
    then pure (pos 1, pos (b - b'0'))
    else raise (other "Invalid decimal integer")

module _ (ops : BufOps) where
  -- `while line.has_remaining()`: a round takes a byte off the line, so the length of the line is
  -- enough fuel for the rounds that the loop makes.
  unfoldable pub accumulate : ℕ → Bytes → ℤ → ℤ → Reader ℤ
  accumulate zero line sign result =
      if ltb 0 (ops.slice_remaining line) then (λ _. out_of_fuel) else pure result
  accumulate (suc f) line sign result =
      let round = do
        scaled ← or_other (checked_mul result (pos 10)) "Integer overflow"
        (byte, rest) ← or_panic (ops.slice_get_u8 line)
        if is_digit byte
            then (do
              next ← or_other (checked_add scaled (sign *ℤ pos (byte - b'0'))) "Integer overflow"
              accumulate f rest sign next)
            else raise (other "Invalid decimal integer")
      in if ltb 0 (ops.slice_remaining line) then round else pure result

  -- Steps 2 to 4 of `get_decimal`, on the line that was read.
  unfoldable pub decode_decimal : Bytes → Reader ℤ
  decode_decimal line =
      let decode = do
        (byte, rest) ← or_panic (ops.slice_get_u8 line)
        (sign, result) ← first_byte byte
        if not (ltb 0 (ops.slice_remaining rest)) && eq_ℤ sign (negsuc 0)
            then raise (other "Invalid decimal integer")
            else accumulate (length line) rest sign result
      in if ltb 0 (ops.slice_remaining line) then decode else raise (other "Empty decimal field")

  unfoldable pub get_decimal : Reader ℤ
  get_decimal = do line ← get_line ops; decode_decimal line
