-- ===== src/Frame/Line.antt =====
-- `Frame::get_line` of src/frame.rs.
pub mod Exact
pub mod Steady
use mini_redis.Prelude.{
  ℕ, ◌+◌, ◌-◌, ◌&&◌, Option, none, some, [], ◌∷◌, leb, ◌==◌, if◌then◌else◌, length, take, drop,
}
use mini_redis.Text.{Bytes, cr, lf}
use mini_redis.Config.{usize_max}
use mini_redis.Buf.{BufOps}
use mini_redis.Frame.{Error, incomplete, other}
use mini_redis.Frame.Reader.{Reader, pure, raise, ◌>>=◌, ◌>>◌, or_panic, skip}

-- How the scan for CRLF ends: at the index of the carriage return, or with an error.
pub data Scan : Type 0 where
  line_end : ℕ → Scan
  scan_error : Error → Scan

unfoldable pub after_cr : Bytes → ℕ → Scan
after_cr [] index = scan_error incomplete
after_cr (next ∷ _) index =
    if next == lf
    then line_end index
    else scan_error (other "Carriage return is not followed by line feed")

-- `for index in 0..line.len()`, over the bytes from `index` on.
unfoldable pub scan_line : Bytes → ℕ → Scan
unfolding after_cr
scan_line [] index = scan_error incomplete
scan_line (b ∷ rest) index =
    let further = scan_line rest (index + 1) in
    if b == lf
    then scan_error (other "Bare line feed in line")
    else if b == cr
    then after_cr rest index
    else further

-- `&s[from..to]`; `none` stands for the panic out of range.
abbrev pub slice : Bytes → ℕ → ℕ → Option Bytes
slice s from to =
    if leb from to && leb to (length s) then some (take (to - from) (drop from s)) else none

module _ (ops : BufOps) where
  unfoldable pub finish_line : Scan → Reader Bytes
  finish_line (scan_error e) c = raise e c
  finish_line (line_end index) c =
      (do
        result ← or_panic (slice c.contents c.position (c.position + index))
        skip ops (index + 2)
        pure result)
        c

  unfoldable pub get_line : Reader Bytes
  get_line c =
      if leb c.position usize_max
      then finish_line (scan_line (ops.chunk c) 0) c
      else raise (other "Cursor position cannot be represented as usize") c
