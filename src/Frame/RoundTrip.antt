-- ===== src/Frame/RoundTrip.antt =====
-- `Frame::parse` of src/frame.rs over the bytes of a frame that was written.
use mini_redis.Prelude.{◌≤◌, ◌≡◌, ◌++◌, length}
use mini_redis.Text.{Bytes}
use mini_redis.Config.{usize_max}
use mini_redis.Buf.{Cursor, BufOps, IsBuf, unread, moved}
use mini_redis.Frame.{Frame}
use mini_redis.Frame.Reader.{ok}
use mini_redis.Frame.Parse.{parse}
use mini_redis.Frame.Encode.{encode, IsSendable, encode-Spells}
use mini_redis.Frame.Grammar.Took.{Took-ahead}
use mini_redis.Frame.Exact.{parse-Spells_iff}

-- Where the unread bytes begin with the encoding of a frame within the parser's limits, `parse`
-- returns that frame and leaves the cursor behind its encoding, over contents that fit the address
-- space.
pub parse-encode :
    (ops : BufOps)
    → IsBuf ops
    → (c : Cursor) (x : Frame) (rest : Bytes) → length c.contents ≤ usize_max
    → IsSendable 0 x
    → unread c ≡ encode x ++ rest
    → parse ops c ≡ ok x (moved c (length (encode x)))
parse-encode ops laws c x rest fits h ahead =
    (parse-Spells_iff ops laws c fits x (moved c (length (encode x)))).1
      (encode x, encode-Spells h, Took-ahead c (encode x) rest ahead)
