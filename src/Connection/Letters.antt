-- ===== src/Connection/Letters.antt =====
-- The long simple strings that the tests of src/connection.rs send.
use mini_redis.Prelude.{
  ℕ, zero, suc, ◌+◌, ◌≤◌, ◌<◌, ◌≡◌, refl, ap, true, ◌++◌, arith, length, length-append,
}
use mini_redis.Prelude.Int.{pos}
use mini_redis.Text.{Bytes, codes, crlf, is_utf8, usize_to_string, i64_to_string}
use mini_redis.Config.{max_buffered_bytes, usize_max}
use mini_redis.Frame.{simple, integer}
use mini_redis.Frame.Line.Exact.{IsLine}
use mini_redis.Frame.Encode.{encode, IsSendable, sendable_simple}
use mini_redis.Frame.Tests.{repeated}

-- `"A".repeat(n)`, and the simple string that holds it, as bytes.
abbrev pub letters : ℕ → Bytes
letters n = repeated n (codes "A")

abbrev pub encoded : ℕ → Bytes
encoded n = codes "+" ++ (letters n ++ crlf)

pub letters-IsLine : (n : ℕ) → IsLine (letters n)
letters-IsLine zero = tt
letters-IsLine (suc n) = (((λ e. omega arith), (λ e. omega arith)), letters-IsLine n)

pub letters_text : (n : ℕ) → is_utf8 (letters n) ≡ true
unfolding is_utf8
letters_text zero = refl
letters_text (suc n) = letters_text n

pub letters-IsSendable : (n : ℕ) → IsSendable 0 (simple (letters n))
letters-IsSendable n = sendable_simple (letters-IsLine n) (letters_text n)

pub length-letters : (n : ℕ) → length (letters n) ≡ n
length-letters zero = refl
length-letters (suc n) = ap suc (length-letters n)

pub length-encoded : (n : ℕ) → length (encoded n) ≡ n + 3
length-encoded n = omega (arith, length-append (letters n) crlf, length-letters n)

pub encode-letters : (n : ℕ) → encode (simple (letters n)) ≡ encoded n
unfolding encode
encode-letters n = refl

pub zero_text : encode (integer (pos 0)) ≡ codes ":0\r\n"
unfolding encode i64_to_string usize_to_string
zero_text = refl

-- Where the encoding is one byte longer than the budget.
pub encoded_fills :
    (n : ℕ) → n + 3 ≡ max_buffered_bytes + 1 → max_buffered_bytes ≤ length (encoded n)
encoded_fills n is = omega (arith, length-encoded n)

pub encode_exceeds :
    (n : ℕ)
    → n + 3 ≡ max_buffered_bytes + 1
    → max_buffered_bytes < length (encode (simple (letters n)))
encode_exceeds n is = omega (arith, ap length (encode-letters n), length-encoded n)

pub encode_fits :
    (n : ℕ) → n + 3 ≡ max_buffered_bytes + 1 → length (encode (simple (letters n))) ≤ usize_max
encode_fits n is = omega (arith, ap length (encode-letters n), length-encoded n)
