-- ===== src/Frame/Grammar.antt =====
-- The wire format as a grammar, apart from the parser: which byte strings spell which frame, inside
-- `d` enclosing arrays. It allows what the parser of src/frame.rs allows: leading zeros in numbers
-- and lengths, and a null as a bulk string or as an array.
pub mod Reads
pub mod Took
pub mod Step
pub mod Accept
pub mod Decode
pub mod Leaves
mod Elements
pub mod Sound
pub mod Total
pub mod Extend
use mini_redis.Prelude.{ℕ, ◌+◌, ◌<◌, ◌≤◌, ◌≡◌, true, [], ◌∷◌, ◌++◌, length}
use mini_redis.Prelude.Int.{ℤ, pos, negsuc}
use mini_redis.Text.{Bytes, crlf, is_utf8}
use mini_redis.Text.Decimal.{Denotes}
use mini_redis.Config.{usize_max, max_array_depth, array_length_limit_exclusive}
use mini_redis.Frame.{
  Frame, Frames, simple, error, integer, bulk, array, null, nil, cons, frame_count,
}
use mini_redis.Frame.Line.Exact.{IsLine}

-- A text and the CRLF behind it.
abbrev pub line : Bytes → Bytes
line s = s ++ crlf

mutual
  pub data Spells : ℕ → Frame → Bytes → Type 0 where
    spells_simple :
        {d : ℕ} {s t : Bytes}
        → IsLine s
        → is_utf8 s ≡ true
        → t ≡ b'+' ∷ line s
        → Spells d (simple s) t
    spells_error :
        {d : ℕ} {s t : Bytes}
        → IsLine s
        → is_utf8 s ≡ true
        → t ≡ b'-' ∷ line s
        → Spells d (error s) t
    spells_integer :
        {d : ℕ} {z : ℤ} {t : Bytes} (l : Bytes)
        → Denotes l z
        → t ≡ b':' ∷ line l
        → Spells d (integer z) t
    spells_bulk :
        {d : ℕ} {s t : Bytes} (l : Bytes)
        → Denotes l (pos (length s))
        → length s + 2 ≤ usize_max
        → t ≡ b'$' ∷ (line l ++ line s)
        → Spells d (bulk s) t
    spells_null_bulk :
        {d : ℕ} {t : Bytes} (l : Bytes) → Denotes l (negsuc 0) → t ≡ b'$' ∷ line l → Spells d null t
    spells_null_array :
        {d : ℕ} {t : Bytes} (l : Bytes)
        → Denotes l (negsuc 0)
        → d < max_array_depth
        → t ≡ b'*' ∷ line l
        → Spells d null t
    spells_array :
        {d : ℕ} {fs : Frames} {t : Bytes} (l u : Bytes)
        → Denotes l (pos (frame_count fs))
        → d < max_array_depth
        → frame_count fs < array_length_limit_exclusive
        → SpellsAll (d + 1) fs u
        → t ≡ b'*' ∷ (line l ++ u)
        → Spells d (array fs) t

  pub data SpellsAll : ℕ → Frames → Bytes → Type 0 where
    spells_nil : {d : ℕ} {t : Bytes} → t ≡ [] → SpellsAll d nil t
    spells_cons :
        {d : ℕ} {f : Frame} {fs : Frames} {t : Bytes} (u v : Bytes)
        → Spells d f u
        → SpellsAll d fs v
        → t ≡ u ++ v
        → SpellsAll d (cons f fs) t
