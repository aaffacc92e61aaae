-- ===== src/Frame/Tests/Checks.antt =====
-- The tests of `check` in src/frame.rs.
use mini_redis.Prelude.{◌≡◌, refl, Bool, true, [], ◌∷◌, ◌++◌}
use mini_redis.Text.{codes, usize_to_string, crlf}
use mini_redis.Config.{array_length_limit_exclusive}
use mini_redis.Buf.{contiguous, new_cursor}
use mini_redis.Frame.Check.{check}
use mini_redis.Frame.Tests.{
  opened_check, text, all_hold, is_ok, is_incomplete, is_other, leaves, repeated,
}

abbrev test_frame_check_line_frames : Bool
test_frame_check_line_frames = all_hold (
    leaves is_ok 16 (check contiguous (text "+Hello, world!\r\n"))
    ∷ leaves is_ok 22 (check contiguous (text "-Error 404 Not Found\r\n"))
    ∷ leaves is_ok 5 (check contiguous (text ":42\r\n"))
    ∷ [])

test_frame_check_line_frames_passes : test_frame_check_line_frames ≡ true
unfolding opened_check
test_frame_check_line_frames_passes = refl

abbrev test_frame_check_bulk : Bool
test_frame_check_bulk = all_hold (
    leaves is_ok 12 (check contiguous (text "$6\r\nfoobar\r\n"))
    ∷ leaves is_ok 6 (check contiguous (text "$0\r\n\r\n"))
    ∷ leaves is_ok 5 (check contiguous (text "$-1\r\n"))
    ∷ leaves is_incomplete 4 (check contiguous (text "$6\r\nfoo"))
    ∷ leaves is_other 6 (check contiguous (text "$-42\r\n"))
    ∷ leaves is_other 12 (check contiguous (text "$6\r\nfoobar\r3"))
    ∷ leaves is_incomplete 4 (check contiguous (text "$6\r\nfoobar\r"))
    ∷ is_incomplete (check contiguous (text "$9223372036854775807\r\n"))
    ∷ [])

test_frame_check_bulk_passes : test_frame_check_bulk ≡ true
unfolding opened_check
test_frame_check_bulk_passes = refl

abbrev test_frame_check_array : Bool
test_frame_check_array = all_hold (
    leaves is_ok 22 (check contiguous (text "*2\r\n$3\r\nfoo\r\n$3\r\nbar\r\n"))
    ∷ leaves is_ok 36
        (check contiguous (text "*2\r\n*3\r\n:1\r\n:2\r\n:3\r\n*2\r\n+Foo\r\n-Bar\r\n"))
    ∷ leaves is_ok 4 (check contiguous (text "*0\r\n"))
    ∷ leaves is_ok 5 (check contiguous (text "*-1\r\n"))
    ∷ leaves is_incomplete 13 (check contiguous (text "*2\r\n$3\r\nfoo\r\n"))
    ∷ leaves is_other 7 (check contiguous (text "*-137\r\n"))
    ∷ [])

test_frame_check_array_passes : test_frame_check_array ≡ true
unfolding opened_check
test_frame_check_array_passes = refl

abbrev test_frame_check_input_errors : Bool
test_frame_check_input_errors = all_hold (
    leaves is_incomplete 0 (check contiguous (text ""))
    ∷ leaves is_other 1 (check contiguous (text "&Lorem ipsum\r\n"))
    ∷ leaves is_other 1 (check contiguous (text "+dolor \rsit amet"))
    ∷ leaves is_other 1 (check contiguous (text "-dolor \rsit amet"))
    ∷ leaves is_other 1 (check contiguous (text "+consectetur \nadipiscing elit\r\n"))
    ∷ leaves is_other 1 (check contiguous (text "-consectetur \nadipiscing elit\r\n"))
    ∷ [])

test_frame_check_input_errors_passes : test_frame_check_input_errors ≡ true
unfolding opened_check
test_frame_check_input_errors_passes = refl

abbrev test_frame_check_oversized_array : Bool
test_frame_check_oversized_array = all_hold (
    is_other (
      check contiguous
        (new_cursor (codes "*" ++ (usize_to_string array_length_limit_exclusive ++ crlf))))
    ∷ [])

test_frame_check_oversized_array_passes : test_frame_check_oversized_array ≡ true
unfolding opened_check usize_to_string
test_frame_check_oversized_array_passes = refl

abbrev test_frame_check_overnested_array : Bool
test_frame_check_overnested_array =
    all_hold (
      is_other (check contiguous (new_cursor (repeated 33 (codes "*1\r\n") ++ codes ":0\r\n")))
      ∷ [])

test_frame_check_overnested_array_passes : test_frame_check_overnested_array ≡ true
unfolding opened_check
test_frame_check_overnested_array_passes = refl
