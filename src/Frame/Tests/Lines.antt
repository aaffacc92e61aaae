-- ===== src/Frame/Tests/Lines.antt =====
-- The tests of `get_line` and `get_decimal` in src/frame.rs.
use mini_redis.Prelude.{◌≡◌, refl, Bool, true, List, [], ◌∷◌}
use mini_redis.Prelude.Int.{pos, negsuc, i64_max}
use mini_redis.Text.{codes, bytes_eq}
use mini_redis.Buf.{contiguous}
use mini_redis.Frame.{Frame, simple, error, integer, bulk, array, null, nil, cons}
use mini_redis.Frame.Line.{get_line, finish_line, scan_line}
use mini_redis.Frame.Number.{get_decimal}
use mini_redis.Frame.Tests.{
  opened_number, text, all_hold, unwraps_to, is_incomplete, is_other, leaves, int_eq,
}

abbrev test_frame_new : List Frame
test_frame_new =
    simple (codes "Hello, World!")
    ∷ error (codes "404 Not Found")
    ∷ integer (pos 42)
    ∷ bulk (codes "Hello,\nWorld!!")
    ∷ array (
        cons (simple (codes "Hello, World, Again!!!")) (
          cons (error (codes "500 Internal Server Error"))
            (cons (integer (pos 4398046511104)) nil)))
    ∷ null
    ∷ []

abbrev test_frame_get_line : Bool
test_frame_get_line = all_hold (
    leaves (unwraps_to (bytes_eq (codes "hello world"))) 13
      (get_line contiguous (text "hello world\r\n"))
    ∷ leaves (unwraps_to (bytes_eq (codes "2"))) 3
        (get_line contiguous (text "2\r\n$3\r\nfoo\r\n$3\r\nbar\r\n"))
    ∷ leaves is_incomplete 0 (get_line contiguous (text "Lorem ipsum"))
    ∷ leaves is_other 0 (get_line contiguous (text "dolor \rsit amet"))
    ∷ leaves is_other 0 (get_line contiguous (text "consectetur \nadipiscing elit\r\n"))
    ∷ [])

test_frame_get_line_passes : test_frame_get_line ≡ true
unfolding get_line finish_line scan_line bytes_eq
test_frame_get_line_passes = refl

abbrev test_frame_get_decimal_valid : Bool
test_frame_get_decimal_valid = all_hold (
    leaves (unwraps_to (int_eq (pos 42))) 4 (get_decimal contiguous (text "42\r\n"))
    ∷ leaves (unwraps_to (int_eq (negsuc 136))) 6 (get_decimal contiguous (text "-137\r\n"))
    ∷ leaves (unwraps_to (int_eq (pos 9))) 3 (get_decimal contiguous (text "9\r\n"))
    ∷ leaves (unwraps_to (int_eq (pos 2))) 3
        (get_decimal contiguous (text "2\r\n$3\r\nfoo\r\n$3\r\nbar\r\n"))
    ∷ [])

test_frame_get_decimal_valid_passes : test_frame_get_decimal_valid ≡ true
unfolding opened_number
test_frame_get_decimal_valid_passes = refl

abbrev test_frame_get_decimal_errors : Bool
test_frame_get_decimal_errors = all_hold (
    leaves is_incomplete 0 (get_decimal contiguous (text "299792458"))
    ∷ leaves is_other 10 (get_decimal contiguous (text "No. 1729\r\n"))
    ∷ leaves is_other 3 (get_decimal contiguous (text "-\r\n"))
    ∷ leaves is_other 8 (get_decimal contiguous (text "42-137\r\n"))
    ∷ [])

test_frame_get_decimal_errors_passes : test_frame_get_decimal_errors ≡ true
unfolding opened_number
test_frame_get_decimal_errors_passes = refl

abbrev test_frame_get_decimal_limits : Bool
test_frame_get_decimal_limits = all_hold (
    leaves (unwraps_to (int_eq (pos i64_max))) 21
      (get_decimal contiguous (text "9223372036854775807\r\n"))
    ∷ leaves is_other 21 (get_decimal contiguous (text "9223372036854775808\r\n"))
    ∷ leaves (unwraps_to (int_eq (negsuc i64_max))) 22
        (get_decimal contiguous (text "-9223372036854775808\r\n"))
    ∷ leaves is_other 22 (get_decimal contiguous (text "-9223372036854775809\r\n"))
    ∷ leaves is_other 22 (get_decimal contiguous (text "92233720368547758070\r\n"))
    ∷ [])

test_frame_get_decimal_limits_passes : test_frame_get_decimal_limits ≡ true
unfolding opened_number
test_frame_get_decimal_limits_passes = refl
