-- ===== src/Frame/Tests/Examples.antt =====
-- The theorems on the frame parser at concrete inputs.
use mini_redis.Prelude.{◌≡◌, refl, String, length, ◌↔◌, ◌⊎◌, ◌≢◌, arith}
use mini_redis.Prelude.Int.{pos}
use mini_redis.Text.{Bytes, codes, usize_to_string, i64_to_string}
use mini_redis.Buf.{extended, Cursor, contiguous, contiguous-IsBuf, moved}
use mini_redis.Frame.{Frame, incomplete, other, integer, bulk, array, nil, cons}
use mini_redis.Frame.Reader.{ok, err, panicked, out_of_fuel}
use mini_redis.Frame.Parse.{parse}
use mini_redis.Frame.Encode.{
  encode, IsSendable, sendable_integer, sendable_bulk, sendable_array, sendable_nil, sendable_cons,
}
use mini_redis.Frame.Grammar.{Spells}
use mini_redis.Frame.Grammar.Took.{Took}
use mini_redis.Frame.Exact.{parse_total, parse-Spells_iff, parse-check, parse-extended}
use mini_redis.Frame.Arrival.{parse_refused-extended, parse-prefix}
use mini_redis.Frame.RoundTrip.{parse-encode}
use mini_redis.Frame.Tests.{opened_check, opened_parse, text, at}

abbrev two_values : Frame
two_values = array (cons (bulk (codes "a\r")) (cons (integer (pos 7)) nil))

abbrev two_values_text : String
two_values_text = "*2\r\n$2\r\na\r\r\n:7\r\n"

two_values-IsSendable : IsSendable 0 two_values
two_values-IsSendable = sendable_array (omega arith) (omega arith) (
    sendable_cons (sendable_bulk (omega arith))
      (sendable_cons (sendable_integer (omega arith)) sendable_nil))

parse_total_example :
    (parse contiguous (text "*1\r\n*x") ≢ panicked)
    × (parse contiguous (text "*1\r\n*x") ≢ out_of_fuel)
parse_total_example = parse_total contiguous contiguous-IsBuf (text "*1\r\n*x")

parse-Spells_iff_example :
    (parse contiguous (text two_values_text) ≡ ok two_values (at two_values_text 16))
    ↔ ((t : Bytes) × Spells 0 two_values t × Took t (text two_values_text) (at two_values_text 16))
parse-Spells_iff_example =
    parse-Spells_iff contiguous contiguous-IsBuf (text two_values_text) (omega arith) two_values
      (at two_values_text 16)

parse-encode_example :
    parse contiguous (text "*2\r\n$2\r\na\r\r\n:7\r\n+more")
    ≡ ok two_values (moved (text "*2\r\n$2\r\na\r\r\n:7\r\n+more") (length (encode two_values)))
unfolding encode usize_to_string i64_to_string
parse-encode_example =
    parse-encode contiguous contiguous-IsBuf (text "*2\r\n$2\r\na\r\r\n:7\r\n+more") two_values
      (codes "+more") (omega arith) two_values-IsSendable refl

parse-check_example :
    ((x : Frame) × (parse contiguous (text ":12x\r\n") ≡ ok x (at ":12x\r\n" 6)))
    ⊎ ((m : String) × (c : Cursor) × (parse contiguous (text ":12x\r\n") ≡ err (other m) c))
unfolding opened_check
parse-check_example =
    parse-check contiguous contiguous-IsBuf (text ":12x\r\n") (at ":12x\r\n" 6) refl

parsed : parse contiguous (text two_values_text) ≡ ok two_values (at two_values_text 16)
unfolding opened_parse
parsed = refl

parse-extended_example :
    parse contiguous (extended (text two_values_text) (codes "$-"))
    ≡ ok two_values (extended (at two_values_text 16) (codes "$-"))
parse-extended_example =
    parse-extended contiguous contiguous-IsBuf (text two_values_text) (at two_values_text 16)
      (codes "$-") two_values (omega arith) parsed

refused :
    parse contiguous (text "$3\r\nfoobar")
    ≡ err (other "Invalid bulk string terminator") (at "$3\r\nfoobar" 8)
unfolding opened_parse
refused = refl

parse_refused-extended_example :
    parse contiguous (extended (text "$3\r\nfoobar") (codes "\r\n"))
    ≡ err (other "Invalid bulk string terminator") (extended (at "$3\r\nfoobar" 8) (codes "\r\n"))
parse_refused-extended_example =
    parse_refused-extended contiguous contiguous-IsBuf (text "$3\r\nfoobar") (at "$3\r\nfoobar" 8)
      (codes "\r\n") "Invalid bulk string terminator" (omega arith) refused

parsed_late :
    parse contiguous (extended (text "*1\r\n:4") (codes "2\r\n+"))
    ≡ ok (array (cons (integer (pos 42)) nil)) (at "*1\r\n:42\r\n+" 9)
unfolding opened_parse
parsed_late = refl

parse-prefix_example :
    ((c : Cursor) × (parse contiguous (text "*1\r\n:4")
        ≡ ok (array (cons (integer (pos 42)) nil)) c)
      × (at "*1\r\n:42\r\n+" 9 ≡ extended c (codes "2\r\n+")))
    ⊎ ((c : Cursor) × (parse contiguous (text "*1\r\n:4") ≡ err incomplete c))
parse-prefix_example =
    parse-prefix contiguous contiguous-IsBuf (text "*1\r\n:4") (at "*1\r\n:42\r\n+" 9)
      (codes "2\r\n+") (array (cons (integer (pos 42)) nil)) (omega arith) parsed_late
