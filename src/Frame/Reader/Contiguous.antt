-- ===== src/Frame/Reader/Contiguous.antt =====
-- The primitive readers at the concrete functions, where the bytes ahead are known.
use mini_redis.Prelude.{ℕ, ◌+◌, ◌≤◌, ◌<◌, ◌≡◌, ◌∷◌, arith, le→leb, length, length-drop}
use mini_redis.Text.{Bytes}
use mini_redis.Buf.{Cursor, contiguous, unread, moved}
use mini_redis.Frame.Reader.{ok, skip, read_u8}

pub skip-moved :
    (c : Cursor) (n : ℕ) → n ≤ length (unread c) → skip contiguous n c ≡ ok tt (moved c n)
skip-moved c n h = rw (skip, le→leb n (length (unread c)) h)

pub read_u8-ahead :
    (c : Cursor) (b : ℕ) (rest : Bytes)
    → unread c ≡ b ∷ rest
    → read_u8 contiguous c ≡ ok b (moved c 1)
read_u8-ahead c b rest e = rw (read_u8, e)

-- There is room in the contents for what is unread.
pub unread-fits :
    (c : Cursor) (n : ℕ) → 0 < n → n ≤ length (unread c) → c.position + n ≤ length c.contents
unread-fits c n h k = omega (arith, length-drop c.position c.contents)
