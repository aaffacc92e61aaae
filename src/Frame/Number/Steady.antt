-- ===== src/Frame/Number/Steady.antt =====
-- `get_decimal` as more input arrives.
use mini_redis.Prelude.{ℕ, zero, suc, ◌-◌, not, ◌&&◌, ltb, ◌==◌, length}
use mini_redis.Prelude.Int.{ℤ, pos, negsuc, ◌*ℤ◌, checked_mul, checked_add, eq_ℤ}
use mini_redis.Text.{Bytes}
use mini_redis.Buf.{contiguous}
use mini_redis.Frame.Reader.Steady.{
  starves, Steady, Steady-bind, Steady-pure, Steady-other, Steady-or_other, Steady-or_panic,
  Steady-if,
}
use mini_redis.Frame.Line.{get_line}
use mini_redis.Frame.Line.Steady.{get_line-Steady}
use mini_redis.Frame.Number.{is_digit, first_byte, accumulate, decode_decimal, get_decimal}

first_byte-Steady : (b : ℕ) → Steady (first_byte b)
first_byte-Steady b =
    Steady-if (b == b'-') _ _ (Steady-pure _)
      (Steady-if (is_digit b) _ _ (Steady-pure _) (Steady-other _))

accumulate-Steady :
    (f : ℕ) (l : Bytes) (sign result : ℤ) → Steady (accumulate contiguous f l sign result)
unfolding accumulate
accumulate-Steady zero l sign result =
    Steady-if (ltb 0 (length l)) _ _ (λ more c h. starves) (Steady-pure result)
accumulate-Steady (suc f) l sign result =
    Steady-if (ltb 0 (length l)) _ _
      (Steady-bind _ _ (Steady-or_other (checked_mul result (pos 10)) _) (λ scaled.
        Steady-bind _ _ (Steady-or_panic (contiguous.slice_get_u8 l)) (λ (byte, rest).
          Steady-if (is_digit byte) _ _
            (Steady-bind _ _ (Steady-or_other (checked_add scaled (sign *ℤ pos (byte - b'0'))) _)
              (λ next. accumulate-Steady f rest sign next))
            (Steady-other _))))
      (Steady-pure result)

decode_decimal-Steady : (l : Bytes) → Steady (decode_decimal contiguous l)
unfolding decode_decimal
decode_decimal-Steady l =
    Steady-if (ltb 0 (length l)) _ _
      (Steady-bind _ _ (Steady-or_panic (contiguous.slice_get_u8 l)) (λ (byte, rest).
        Steady-bind _ _ (first_byte-Steady byte) (λ (sign, result).
          Steady-if (not (ltb 0 (length rest)) && eq_ℤ sign (negsuc 0)) _ _ (Steady-other _)
            (accumulate-Steady (length l) rest sign result))))
      (Steady-other _)

pub get_decimal-Steady : Steady (get_decimal contiguous)
unfolding get_decimal
get_decimal-Steady = Steady-bind (get_line contiguous) _ get_line-Steady decode_decimal-Steady
