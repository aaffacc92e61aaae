-- ===== src/Frame/Encode.antt =====
-- The bytes of a frame: the reference for `write_data` of src/connection.rs.
use mini_redis.Prelude.{ℕ, ◌+◌, ◌≤◌, ◌<◌, ◌≡◌, refl, true, [], ◌∷◌, ◌++◌, arith, length}
use mini_redis.Prelude.Int.{ℤ, pos, negsuc, i64_max, IsI64}
use mini_redis.Text.{Bytes, codes, is_utf8, usize_to_string, i64_to_string}
use mini_redis.Text.Decimal.{Denotes, i64_to_string-Denotes}
use mini_redis.Config.{max_array_depth, array_length_limit_exclusive}
use mini_redis.Frame.{
  Frame, Frames, simple, error, integer, bulk, array, null, nil, cons, frame_count,
}
use mini_redis.Frame.Line.Exact.{IsLine}
use mini_redis.Frame.Grammar.{
  line, Spells, SpellsAll, spells_simple, spells_error, spells_integer, spells_bulk,
  spells_null_bulk, spells_array, spells_nil, spells_cons,
}

unfoldable mutual
  pub encode : Frame → Bytes
  encode (simple s) = b'+' ∷ line s
  encode (error s) = b'-' ∷ line s
  encode (integer z) = b':' ∷ line (i64_to_string z)
  encode (bulk s) = b'$' ∷ (line (usize_to_string (length s)) ++ line s)
  encode (array fs) = b'*' ∷ (line (usize_to_string (frame_count fs)) ++ encode_all fs)
  encode null = codes "$-1\r\n"

  pub encode_all : Frames → Bytes
  encode_all nil = []
  encode_all (cons x fs) = encode x ++ encode_all fs

-- The frames within the limits of the parser, inside `d` arrays: strings of UTF-8 with no CR or LF,
-- an `i64`, payloads and arrays of a supported length, and arrays that nest no deeper than the limit.
mutual
  pub data IsSendable : ℕ → Frame → Type 0 where
    sendable_simple : {d : ℕ} {s : Bytes} → IsLine s → is_utf8 s ≡ true → IsSendable d (simple s)
    sendable_error : {d : ℕ} {s : Bytes} → IsLine s → is_utf8 s ≡ true → IsSendable d (error s)
    sendable_integer : {d : ℕ} {z : ℤ} → IsI64 z → IsSendable d (integer z)
    sendable_bulk : {d : ℕ} {s : Bytes} → length s ≤ i64_max → IsSendable d (bulk s)
    sendable_array :
        {d : ℕ} {fs : Frames}
        → d < max_array_depth
        → frame_count fs < array_length_limit_exclusive
        → AllSendable (d + 1) fs
        → IsSendable d (array fs)
    sendable_null : {d : ℕ} → IsSendable d null

  pub data AllSendable : ℕ → Frames → Type 0 where
    sendable_nil : {d : ℕ} → AllSendable d nil
    sendable_cons :
        {d : ℕ} {x : Frame} {fs : Frames}
        → IsSendable d x
        → AllSendable d fs
        → AllSendable d (cons x fs)

size-Denotes : (n : ℕ) → n ≤ i64_max → Denotes (usize_to_string n) (pos n)
size-Denotes n h = unfold i64_to_string in i64_to_string-Denotes (pos n) (h, omega arith)

minus_one : Denotes (codes "-1") (negsuc 0)
minus_one = record {
  negative = true;
  spelled = codes "1";
  nonempty = cc;
  all_digits = omega arith;
  text_is = refl;
  value_is = refl;
  fits = omega arith;
}

mutual
  unfolding encode

  pub encode-Spells : {d : ℕ} {x : Frame} → IsSendable d x → Spells d x (encode x)
  encode-Spells (sendable_simple l u) = spells_simple l u refl
  encode-Spells (sendable_error l u) = spells_error l u refl
  encode-Spells (sendable_integer {z} h) =
      spells_integer (i64_to_string z) (i64_to_string-Denotes z h) refl
  encode-Spells (sendable_bulk {s} h) =
      spells_bulk (usize_to_string (length s)) (size-Denotes (length s) h) (omega arith) refl
  encode-Spells (sendable_array {fs} shallow few all) =
      spells_array (usize_to_string (frame_count fs)) (encode_all fs)
        (size-Denotes (frame_count fs) (omega arith)) shallow few (encode_all-SpellsAll all) refl
  encode-Spells sendable_null = spells_null_bulk (codes "-1") minus_one refl

  encode_all-SpellsAll : {d : ℕ} {fs : Frames} → AllSendable d fs → SpellsAll d fs (encode_all fs)
  encode_all-SpellsAll sendable_nil = spells_nil refl
  encode_all-SpellsAll (sendable_cons {x} {fs} h all) =
      spells_cons (encode x) (encode_all fs) (encode-Spells h) (encode_all-SpellsAll all) refl
