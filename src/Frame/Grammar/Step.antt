-- ===== src/Frame/Grammar/Step.antt =====
-- One call of the check and of the decoder, by what is ahead of the cursor.
use mini_redis.Prelude.{ℕ, suc, ◌+◌, ◌≡◌, ap, ◌∙◌, [], ◌∷◌, arith, ltb, lt→ltb, length}
use mini_redis.Text.{Bytes}
use mini_redis.Buf.{Cursor, contiguous, unread, moved}
use mini_redis.Frame.{incomplete}
use mini_redis.Frame.Reader.{err, continue}
use mini_redis.Frame.Reader.Contiguous.{read_u8-ahead}
use mini_redis.Frame.Check.{check_marked, check_with_depth}
use mini_redis.Frame.Parse.{parse_marked, parse_data}

pub check_with_depth-nil :
    (f d : ℕ) (c : Cursor)
    → unread c ≡ []
    → check_with_depth contiguous (suc f) d c ≡ err incomplete c
unfolding check_with_depth
check_with_depth-nil f d c e = rw (ap (λ (s : Bytes). ltb 0 (length s)) e)

pub check_with_depth-cons :
    (f d : ℕ) (c : Cursor) (b : ℕ) (rest : Bytes)
    → unread c ≡ b ∷ rest
    → check_with_depth contiguous (suc f) d c
      ≡ check_marked contiguous (check_with_depth contiguous f (d + 1)) d b (moved c 1)
unfolding check_with_depth
check_with_depth-cons f d c b rest e =
    rw (ap (λ (s : Bytes). ltb 0 (length s)) e ∙ lt→ltb 0 (length (b ∷ rest)) (omega arith)) (
      ap (λ o. continue o (check_marked contiguous (check_with_depth contiguous f (d + 1)) d))
        (read_u8-ahead c b rest e))

pub parse_data-cons :
    (f : ℕ) (c : Cursor) (b : ℕ) (rest : Bytes)
    → unread c ≡ b ∷ rest
    → parse_data contiguous (suc f) c
      ≡ parse_marked contiguous (parse_data contiguous f) b (moved c 1)
unfolding parse_data
parse_data-cons f c b rest e =
    ap (λ o. continue o (parse_marked contiguous (parse_data contiguous f)))
      (read_u8-ahead c b rest e)
