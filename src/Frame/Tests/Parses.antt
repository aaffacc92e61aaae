-- ===== src/Frame/Tests/Parses.antt =====
-- The tests of `parse` in src/frame.rs.
use mini_redis.Prelude.{◌+◌, ◌*◌, ◌≡◌, refl, Bool, true, [], ◌∷◌, ◌++◌}
use mini_redis.Prelude.Int.{pos}
use mini_redis.Text.{codes, bytes_eq}
use mini_redis.Config.{max_array_depth}
use mini_redis.Buf.{contiguous, new_cursor}
use mini_redis.Frame.{simple, error, integer, bulk, array, null, nil, cons}
use mini_redis.Frame.Parse.{parse}
use mini_redis.Frame.Tests.{
  opened_parse, text, at, all_hold, unwraps_to, is_incomplete, is_other, leaves, frame_eq,
  frames_eq, repeated, nested,
}

abbrev test_frame_parse_line_frames : Bool
test_frame_parse_line_frames = all_hold (
    leaves (unwraps_to (frame_eq (simple (codes "Hello, World!")))) 16
      (parse contiguous (text "+Hello, World!\r\n"))
    ∷ leaves (unwraps_to (frame_eq (error (codes "Error 404 Not Found")))) 22
        (parse contiguous (text "-Error 404 Not Found\r\n"))
    ∷ leaves (unwraps_to (frame_eq (integer (pos 42)))) 5 (parse contiguous (text ":42\r\n"))
    ∷ is_other (parse contiguous (text ":abc\r\n"))
    ∷ [])

test_frame_parse_line_frames_passes : test_frame_parse_line_frames ≡ true
unfolding opened_parse frame_eq frames_eq bytes_eq
test_frame_parse_line_frames_passes = refl

abbrev test_frame_parse_bulk : Bool
test_frame_parse_bulk = all_hold (
    leaves (unwraps_to (frame_eq (bulk (codes "foobar")))) 12
      (parse contiguous (text "$6\r\nfoobar\r\n"))
    ∷ leaves (unwraps_to (frame_eq (bulk (codes "")))) 6 (parse contiguous (text "$0\r\n\r\n"))
    ∷ leaves (unwraps_to (frame_eq (null))) 5 (parse contiguous (text "$-1\r\n"))
    ∷ is_incomplete (parse contiguous (text "$6\r\nfoo"))
    ∷ is_other (parse contiguous (text "$6\r\nfoobar@@"))
    ∷ [])

test_frame_parse_bulk_passes : test_frame_parse_bulk ≡ true
unfolding opened_parse frame_eq frames_eq bytes_eq
test_frame_parse_bulk_passes = refl

abbrev test_frame_parse_array : Bool
test_frame_parse_array = all_hold (
    leaves
      (unwraps_to (frame_eq (array (cons (bulk (codes "foo")) (cons (bulk (codes "bar")) nil))))) 22
      (parse contiguous (text "*2\r\n$3\r\nfoo\r\n$3\r\nbar\r\n"))
    ∷ leaves
        (unwraps_to (
          frame_eq (
            array (
              cons
                (array
                  (cons (integer (pos 1)) (cons (integer (pos 2)) (cons (integer (pos 3)) nil))))
                (cons (array (cons (simple (codes "Foo")) (cons (error (codes "Bar")) nil)))
                  nil)))))
        36 (parse contiguous (text "*2\r\n*3\r\n:1\r\n:2\r\n:3\r\n*2\r\n+Foo\r\n-Bar\r\n"))
    ∷ leaves (unwraps_to (frame_eq (array nil))) 4 (parse contiguous (text "*0\r\n"))
    ∷ leaves (unwraps_to (frame_eq (null))) 5 (parse contiguous (text "*-1\r\n"))
    ∷ [])

test_frame_parse_array_passes : test_frame_parse_array ≡ true
unfolding opened_parse frame_eq frames_eq bytes_eq
test_frame_parse_array_passes = refl

abbrev test_frame_parse_input_errors : Bool
test_frame_parse_input_errors = all_hold (
    is_incomplete (parse contiguous (text ""))
    ∷ leaves is_other 1 (parse contiguous (text "&Lorem ipsum\r\n"))
    ∷ leaves is_other 1 (parse contiguous (text "+dolor \rsit amet"))
    ∷ leaves is_other 1 (parse contiguous (text "-dolor \rsit amet"))
    ∷ leaves is_other 1 (parse contiguous (text "+consectetur \nadipiscing elit\r\n"))
    ∷ leaves is_other 1 (parse contiguous (text "-consectetur \nadipiscing elit\r\n"))
    ∷ [])

test_frame_parse_input_errors_passes : test_frame_parse_input_errors ≡ true
unfolding opened_parse frame_eq frames_eq bytes_eq
test_frame_parse_input_errors_passes = refl

abbrev test_frame_parse_nonzero_cursor : Bool
test_frame_parse_nonzero_cursor = all_hold (
    leaves (unwraps_to (frame_eq (bulk (codes "Alpha")))) 20
      (parse contiguous (at "$3\r\nSET\r\n$5\r\nAlpha\r\n$3\r\n137\r\n" 9))
    ∷ [])

test_frame_parse_nonzero_cursor_passes : test_frame_parse_nonzero_cursor ≡ true
unfolding opened_parse frame_eq frames_eq bytes_eq
test_frame_parse_nonzero_cursor_passes = refl

abbrev test_frame_parse_maxnested_array : Bool
test_frame_parse_maxnested_array = all_hold (
    leaves (unwraps_to (frame_eq (nested max_array_depth))) (4 * max_array_depth + 4)
      (parse contiguous (new_cursor (repeated max_array_depth (codes "*1\r\n") ++ codes ":0\r\n")))
    ∷ [])

test_frame_parse_maxnested_array_passes : test_frame_parse_maxnested_array ≡ true
unfolding opened_parse frame_eq frames_eq bytes_eq
test_frame_parse_maxnested_array_passes = refl
