-- ===== src/Buf.antt =====
-- Reading positions over bytes: `std::io::Cursor<&[u8]>`, and what the program calls of the crate
-- `bytes` (its trait `Buf` on a cursor, on a slice and on `BytesMut`), which is a parameter.
use mini_redis.Prelude.{
  ℕ, ◌+◌, ◌≤◌, ◌≡◌, refl, sym, Option, none, some, [], ◌∷◌, leb, if◌then◌else◌, length, drop,
  drop-drop, drop-append, drop-append_within, ◌++◌, ◌∙◌, ap,
}
use native.Mathlib.Nat.{add_assoc}
use mini_redis.Text.{Bytes}

-- The bytes under the cursor never change; only the position moves.
pub record Cursor : Type 0 where
  pub contents : Bytes
  pub position : ℕ

-- `Cursor::new`.
abbrev pub new_cursor : Bytes → Cursor
new_cursor s = record { contents = s; position = 0 }

abbrev pub unread : Cursor → Bytes
unread c = drop c.position c.contents

abbrev pub moved : Cursor → ℕ → Cursor
moved c n = record c { position = c.position + n }

-- The functions of the crate that the program calls; `none` stands for a panic.
pub record BufOps : Type 0 where
  pub remaining : Cursor → ℕ
  pub chunk : Cursor → Bytes
  pub get_u8 : Cursor → Option (ℕ × Cursor)
  pub advance : Cursor → ℕ → Option Cursor
  pub slice_remaining : Bytes → ℕ
  pub slice_get_u8 : Bytes → Option (ℕ × Bytes)
  pub buffer_advance : Bytes → ℕ → Option Bytes

-- The first byte and the rest; reading past the end panics.
abbrev pub first_u8 : Bytes → Option (ℕ × Bytes)
first_u8 [] = none
first_u8 (b ∷ s) = some (b, s)

abbrev pub cursor_u8 : Cursor → Bytes → Option (ℕ × Cursor)
cursor_u8 c [] = none
cursor_u8 c (b ∷ s) = some (b, moved c 1)

-- What the crate documents of them: `remaining` counts the bytes from the position to the end,
-- `chunk` of these contiguous buffers is all of them, `get_u8` reads one and panics if there is
-- none, and `advance` moves on and panics past the end.
pub record IsBuf (ops : BufOps) : Type 0 where
  pub remaining_is : (c : Cursor) → ops.remaining c ≡ length (unread c)
  pub chunk_is : (c : Cursor) → ops.chunk c ≡ unread c
  pub get_u8_is : (c : Cursor) → ops.get_u8 c ≡ cursor_u8 c (unread c)
  pub advance_is :
      (c : Cursor) (n : ℕ)
      → ops.advance c n ≡ (if leb n (length (unread c)) then some (moved c n) else none)
  pub slice_remaining_is : (s : Bytes) → ops.slice_remaining s ≡ length s
  pub slice_get_u8_is : (s : Bytes) → ops.slice_get_u8 s ≡ first_u8 s
  pub buffer_advance_is :
      (s : Bytes) (n : ℕ)
      → ops.buffer_advance s n ≡ (if leb n (length s) then some (drop n s) else none)

-- Concrete functions that meet the documentation.
abbrev pub contiguous : BufOps
contiguous = record {
  remaining = λ c. length (unread c);
  chunk = λ c. unread c;
  get_u8 = λ c. cursor_u8 c (unread c);
  advance = λ c n. if leb n (length (unread c)) then some (moved c n) else none;
  slice_remaining = λ s. length s;
  slice_get_u8 = λ s. first_u8 s;
  buffer_advance = λ s n. if leb n (length s) then some (drop n s) else none;
}

pub contiguous-IsBuf : IsBuf contiguous
contiguous-IsBuf = record {
  remaining_is = λ c. refl;
  chunk_is = λ c. refl;
  get_u8_is = λ c. refl;
  advance_is = λ c n. refl;
  slice_remaining_is = λ s. refl;
  slice_get_u8_is = λ s. refl;
  buffer_advance_is = λ s n. refl;
}

-- The documentation fixes the functions, so a proof may compute with the concrete ones.
pub IsBuf-unique : {ops : BufOps} → IsBuf ops → ops ≡ contiguous
IsBuf-unique laws = λ i. record {
  remaining = λ c. laws.remaining_is c i;
  chunk = λ c. laws.chunk_is c i;
  get_u8 = λ c. laws.get_u8_is c i;
  advance = λ c n. laws.advance_is c n i;
  slice_remaining = λ s. laws.slice_remaining_is s i;
  slice_get_u8 = λ s. laws.slice_get_u8_is s i;
  buffer_advance = λ s n. laws.buffer_advance_is s n i;
}

pub unread-moved : (c : Cursor) (n : ℕ) → unread (moved c n) ≡ drop n (unread c)
unread-moved c n = sym (drop-drop n c.position c.contents)

pub moved-moved : (c : Cursor) (m n : ℕ) → moved (moved c m) n ≡ moved c (m + n)
moved-moved c m n = ap (λ (k : ℕ). record c { position = k }) (add_assoc c.position m n)

-- Behind what was ahead comes the rest.
pub unread-behind :
    (c : Cursor) (s rest : Bytes) → unread c ≡ s ++ rest → unread (moved c (length s)) ≡ rest
unread-behind c s rest e = unread-moved c (length s) ∙ ap (drop (length s)) e ∙ drop-append s rest

-- Bytes that arrive behind the contents.
abbrev pub extended : Cursor → Bytes → Cursor
extended c more = record c { contents = c.contents ++ more }

-- The position is one of the contents, or their end.
abbrev pub IsInside : Cursor → Type 0
IsInside c = c.position ≤ length c.contents

pub unread-extended :
    (c : Cursor) (more : Bytes) → IsInside c → unread (extended c more) ≡ unread c ++ more
unread-extended c more h = drop-append_within c.position c.contents more h
