-- ===== src/Text.antt =====
-- Bytes and Rust strings. A `Bytes`, a `Vec<u8>` and a `&[u8]` are their contents, a list of
-- numbers below 256; a `String` is the list of its UTF-8 bytes. `String::from_utf8`,
-- `str::eq_ignore_ascii_case` and `to_string` on integers are those of Rust's standard library.
pub mod Decimal
use Prim.Native.Char.{code}
use mini_redis.Prelude.{
  ℕ, zero, suc, ◌+◌, ◌-◌, ◌/◌, ◌%◌, String, Bool, true, false, ◌&&◌, Option, none, some, List, [],
  ◌∷◌, ◌++◌, ltb, leb, ◌==◌, if◌then◌else◌,
}
use mini_redis.Prelude.Int.{ℤ, pos, negsuc}

abbrev pub Bytes : Type 0
Bytes = List ℕ

-- The code points of a literal; these are its bytes when the text is ASCII.
abbrev pub codes : String → Bytes
codes String.[] = []
codes (String.◌∷◌ c s) = code c ∷ codes s

abbrev pub cr : ℕ
cr = 13

abbrev pub lf : ℕ
lf = 10

abbrev pub crlf : Bytes
crlf = cr ∷ lf ∷ []

abbrev pub in_range : ℕ → ℕ → ℕ → Bool
in_range lo hi b = leb lo b && leb b hi

-- What a decoder of UTF-8 still expects: `more` continuation bytes, the next of them from `lo` to
-- `hi`. The bounds after a lead byte exclude overlong forms, surrogates and values past U+10FFFF.
pub record Expected : Type 0 where
  pub more : ℕ
  pub lo : ℕ
  pub hi : ℕ

abbrev boundary : Expected
boundary = record { more = 0; lo = 0x80; hi = 0xbf }

lead : ℕ → Option Expected
lead b =
    if leb b 0x7f
    then some boundary
    else if in_range 0xc2 0xdf b
    then some (record boundary { more = 1 })
    else if b == 0xe0
    then some (record { more = 2; lo = 0xa0; hi = 0xbf })
    else if b == 0xed
    then some (record { more = 2; lo = 0x80; hi = 0x9f })
    else if in_range 0xe1 0xef b
    then some (record boundary { more = 2 })
    else if b == 0xf0
    then some (record { more = 3; lo = 0x90; hi = 0xbf })
    else if in_range 0xf1 0xf3 b
    then some (record boundary { more = 3 })
    else if b == 0xf4
    then some (record { more = 3; lo = 0x80; hi = 0x8f })
    else none

utf8_step : Expected → ℕ → Option Expected
unfolding lead
utf8_step e b =
    if e.more == 0
    then lead b
    else if in_range e.lo e.hi b
    then some (record boundary { more = e.more - 1 })
    else none

utf8_run : Expected → Bytes → Bool
utf8_run e [] = e.more == 0
utf8_run e (b ∷ s) = elim (utf8_step e b) [ none ↦ false | some next ↦ utf8_run next s ]

unfoldable pub is_utf8 : Bytes → Bool
unfolding utf8_run utf8_step
is_utf8 s = utf8_run boundary s

-- `String::from_utf8(bytes.to_vec())`; `none` stands for its error.
unfoldable pub from_utf8 : Bytes → Option Bytes
from_utf8 s = if is_utf8 s then some s else none

-- `u8::to_ascii_lowercase` and `str::eq_ignore_ascii_case`.
unfoldable pub to_ascii_lowercase : ℕ → ℕ
to_ascii_lowercase b = if in_range b'A' b'Z' b then b + 32 else b

unfoldable pub eq_ignore_ascii_case : Bytes → Bytes → Bool
unfolding to_ascii_lowercase
eq_ignore_ascii_case [] [] = true
eq_ignore_ascii_case (a ∷ s) (b ∷ t) =
    (to_ascii_lowercase a == to_ascii_lowercase b) && eq_ignore_ascii_case s t
eq_ignore_ascii_case _ _ = false

-- `==` on strings and byte strings.
unfoldable pub bytes_eq : Bytes → Bytes → Bool
bytes_eq [] [] = true
bytes_eq (a ∷ s) (b ∷ t) = (a == b) && bytes_eq s t
bytes_eq _ _ = false

-- The decimal digits of `n`, most significant first. A round divides by ten, so `suc n` rounds
-- are enough.
pub digits : ℕ → ℕ → Bytes
digits zero n = []
digits (suc f) n =
    let more = digits f (n / 10) ++ (b'0' + n % 10) ∷ [] in
    if ltb n 10 then (b'0' + n) ∷ [] else more

-- `to_string` of a `usize` and of an `i64`.
unfoldable pub usize_to_string : ℕ → Bytes
unfolding digits
usize_to_string n = digits (suc n) n

unfoldable pub i64_to_string : ℤ → Bytes
unfolding usize_to_string
i64_to_string (pos n) = usize_to_string n
i64_to_string (negsuc n) = b'-' ∷ usize_to_string (suc n)
