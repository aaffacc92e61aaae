-- ===== src/Connection/Cut.antt =====
-- `parse_frame` of src/connection.rs on a part of a frame.
use mini_redis.Prelude.{◌≤◌, ◌<◌, ◌≡◌, sym, ap, ◌∙◌, none, ◌++◌, append_assoc, length}
use mini_redis.Text.{Bytes}
use mini_redis.Config.{usize_max}
use mini_redis.Buf.{contiguous}
use mini_redis.Frame.{Frame}
use mini_redis.Frame.Grammar.{Spells}
use mini_redis.Stream.{StreamOps, IsReliable}
use mini_redis.Connection.{Connection, returned, parse_frame}
use mini_redis.Connection.Complete.{append-split, parse_frame_part}

module _ {S E : Type 0} (net : StreamOps S E) (rel : IsReliable net) (x : Frame)
    (t p q rest : Bytes) (s : Spells 0 x t) (cut : t ≡ p ++ q) (fits : length t ≤ usize_max) where
  -- What is buffered of a frame is found to be incomplete.
  pub parse_frame_cut :
      (c : Connection S)
      → c.buffer ++ rel.pending c.stream ≡ p ++ rest
      → length c.buffer ≤ length p
      → length c.buffer < length t
      → parse_frame {S = S} {E = E} contiguous c ≡ returned none c
  parse_frame_cut c sent inside short =
      let (r, front, _) = append-split p rest c.buffer (rel.pending c.stream) (sym sent) inside in
      parse_frame_part c x t (r ++ q) s fits
        (cut ∙ ap (λ u. u ++ q) front ∙ append_assoc c.buffer r q) short
