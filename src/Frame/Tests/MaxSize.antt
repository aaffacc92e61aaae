-- ===== src/Frame/Tests/MaxSize.antt =====
-- The test of `parse` in src/frame.rs on an array of the greatest length.
use mini_redis.Prelude.{
  ℕ, zero, suc, ◌+◌, ◌-◌, ◌*◌, ◌<◌, ◌≤◌, ◌≡◌, refl, sym, ap, ◌∙◌, Bool, true, ◌==◌, [], ◌∷◌, ◌++◌,
  append_assoc, append-nil, ==_iff, length, length-append, arith,
}
use mini_redis.Prelude.Int.{pos}
use mini_redis.Text.{Bytes, codes, usize_to_string, i64_to_string, crlf}
use mini_redis.Config.{array_length_limit_exclusive, usize_max}
use mini_redis.Buf.{contiguous, contiguous-IsBuf, new_cursor, moved}
use mini_redis.Frame.{Frames, integer, array, nil, cons, frame_count}
use mini_redis.Frame.Reader.{ok}
use mini_redis.Frame.Parse.{parse}
use mini_redis.Frame.Encode.{
  encode, encode_all, IsSendable, AllSendable, sendable_integer, sendable_array, sendable_nil,
  sendable_cons,
}
use mini_redis.Frame.RoundTrip.{parse-encode}
use mini_redis.Frame.Tests.{all_hold, unwraps_to, leaves, frame_eq, frames_eq, repeated}

-- So many zeros, and the bytes of an array of them.
abbrev zeros : ℕ → Frames
zeros zero = nil
zeros (suc n) = cons (integer (pos 0)) (zeros n)

abbrev zeros_text : ℕ → Bytes
zeros_text size = codes "*" ++ (usize_to_string size ++ (crlf ++ repeated size (codes ":0\r\n")))

abbrev parses_zeros : ℕ → Bool
parses_zeros size = all_hold (
    leaves (unwraps_to (frame_eq (array (zeros size))))
      (1 + length (usize_to_string size) + 4 * size + 2)
      (parse contiguous (new_cursor (zeros_text size)))
    ∷ [])

test_frame_parse_maxsized_array : Bool
test_frame_parse_maxsized_array = parses_zeros (array_length_limit_exclusive - 1)

frame_count-zeros : (n : ℕ) → frame_count (zeros n) ≡ n
frame_count-zeros zero = refl
frame_count-zeros (suc n) = ap suc (frame_count-zeros n)

encode_all-zeros : (n : ℕ) → encode_all (zeros n) ≡ repeated n (codes ":0\r\n")
unfolding encode_all i64_to_string usize_to_string
encode_all-zeros zero = refl
encode_all-zeros (suc n) = ap (λ s. codes ":0\r\n" ++ s) (encode_all-zeros n)

encode-zeros : (n : ℕ) → encode (array (zeros n)) ≡ zeros_text n
unfolding encode
encode-zeros n =
    ap (λ k. codes "*" ++ ((usize_to_string k ++ crlf) ++ encode_all (zeros n)))
      (frame_count-zeros n)
    ∙ ap (λ s. codes "*" ++ ((usize_to_string n ++ crlf) ++ s)) (encode_all-zeros n)
    ∙ ap (λ s. codes "*" ++ s) (append_assoc (usize_to_string n) crlf (repeated n (codes ":0\r\n")))

zeros-AllSendable : (n : ℕ) → AllSendable 1 (zeros n)
zeros-AllSendable zero = sendable_nil
zeros-AllSendable (suc n) = sendable_cons (sendable_integer (omega arith)) (zeros-AllSendable n)

zeros-IsSendable : (n : ℕ) → n < array_length_limit_exclusive → IsSendable 0 (array (zeros n))
zeros-IsSendable n h =
    sendable_array (omega arith) (omega (arith, frame_count-zeros n)) (zeros-AllSendable n)

length-repeated : (n : ℕ) → length (repeated n (codes ":0\r\n")) ≡ 4 * n
length-repeated zero = refl
length-repeated (suc n) = omega (arith, length-repeated n)

length-zeros_text : (n : ℕ) → length (zeros_text n) ≡ 1 + length (usize_to_string n) + 4 * n + 2
length-zeros_text n = omega (
  arith,
  length-append (usize_to_string n) (crlf ++ repeated n (codes ":0\r\n")),
  length-repeated n,
)

frames_eq-zeros : (n : ℕ) → frames_eq (zeros n) (zeros n) ≡ true
unfolding frames_eq
frames_eq-zeros zero = refl
frames_eq-zeros (suc n) = frames_eq-zeros n

parse-zeros :
    (n : ℕ)
    → n < array_length_limit_exclusive
    → length (zeros_text n) ≤ usize_max
    → parse contiguous (new_cursor (zeros_text n))
      ≡ ok (array (zeros n)) (moved (new_cursor (zeros_text n)) (length (encode (array (zeros n)))))
parse-zeros n h fits =
    parse-encode contiguous contiguous-IsBuf (new_cursor (zeros_text n)) (array (zeros n)) [] fits
      (zeros-IsSendable n h) (sym (append-nil (encode (array (zeros n))) ∙ encode-zeros n))

parses_zeros_lem :
    (n : ℕ)
    → n < array_length_limit_exclusive
    → length (usize_to_string n) ≤ array_length_limit_exclusive
    → parses_zeros n ≡ true
unfolding frame_eq
parses_zeros_lem n h few =
    let size = length-zeros_text n in
    let found = parse-zeros n h (omega arith) in
    let ends : (0 + length (encode (array (zeros n))) == 1 + length (usize_to_string n) + 4 * n + 2)
        ≡ true =
      (==_iff _ _).1 (omega (arith, ap length (encode-zeros n) ∙ size)) in
    ap
      (λ r. all_hold (
        leaves (unwraps_to (frame_eq (array (zeros n))))
          (1 + length (usize_to_string n) + 4 * n + 2) r
        ∷ []))
      found
    ∙ rw (frames_eq-zeros n, ends) refl

digits_of_size :
    length (usize_to_string (array_length_limit_exclusive - 1)) ≤ array_length_limit_exclusive
unfolding usize_to_string
digits_of_size = omega arith

test_frame_parse_maxsized_array_passes : test_frame_parse_maxsized_array ≡ true
unfolding test_frame_parse_maxsized_array
test_frame_parse_maxsized_array_passes =
    parses_zeros_lem (array_length_limit_exclusive - 1) (omega arith) digits_of_size
