-- ===== src/Connection/Overflow.antt =====
-- `read_frame` of src/connection.rs where the peer sends a frame that is too long.
use native.Mathlib.Decide.{dec_le}
use mini_redis.Prelude.{
  ℕ, zero, suc, ◌+◌, ◌-◌, ◌≤◌, ◌<◌, ◌≡◌, refl, sym, ap, ◌∙◌, Option, ◌∷◌, ◌++◌, append_assoc, arith,
  le→leb, length, length-append,
}
use mini_redis.Text.{Bytes}
use mini_redis.Config.{max_buffered_bytes, usize_max}
use mini_redis.Buf.{BufOps, IsBuf, IsBuf-unique, contiguous}
use mini_redis.Frame.{Frame}
use mini_redis.Frame.Grammar.{Spells}
use mini_redis.Stream.{
  Reply, ok, err, StreamOps, IsStream, Read, read_some, IsReliable, Arrives, arrived, at_end,
}
use mini_redis.Connection.{
  Connection, Run, after_read, after_parse, read_rounds, read_frame, failed, message,
}
use mini_redis.Connection.Complete.{lt→leb-false}
use mini_redis.Connection.Cut.{parse_frame_cut}

module _ {S E : Type 0} (net : StreamOps S E) (laws : IsStream net) (rel : IsReliable net)
    (x : Frame) (t p q rest : Bytes) (s : Spells 0 x t) (cut : t ≡ p ++ q)
    (fits : length t ≤ usize_max) where
  abbrev Overflows : Run S E (Option Frame) → Type 0
  Overflows r =
      (c : Connection S) × (r ≡ failed (message "Frame cannot fit within the buffer limit") c)
      × (length c.buffer ≡ max_buffered_bytes)

  after_read-Overflows :
      (again : Connection S → Run S E (Option Frame)) (c : Connection S) (r : Reply E Bytes × S)
      → c.buffer ++ rel.pending c.stream ≡ p ++ rest
      → length c.buffer < max_buffered_bytes
      → max_buffered_bytes ≤ length p
      → ((c₁ : Connection S)
          → length c.buffer < length c₁.buffer
          → length c₁.buffer ≤ max_buffered_bytes
          → c₁.buffer ++ rel.pending c₁.stream ≡ p ++ rest
          → Overflows (again c₁))
      → Arrives rel.pending c.stream r
      → Read laws.written laws.received (max_buffered_bytes - length c.buffer) c.stream r
      → Overflows (after_read net again c r)
  unfolding after_read
  after_read-Overflows again c (ok _, s₁) sent short large later (arrived b u e)
        (read_some few _ _) =
      later (record { stream = s₁; buffer = c.buffer ++ (b ∷ u) })
        (omega (arith, length-append c.buffer (b ∷ u)))
        (omega (arith, length-append c.buffer (b ∷ u)))
        (append_assoc c.buffer (b ∷ u) (rel.pending s₁) ∙ ap (λ v. c.buffer ++ v) (sym e) ∙ sent)
  after_read-Overflows again c (ok _, s₁) sent short large later (at_end e _) read = absurd (
      omega (
        arith,
        ap length sent ∙ length-append p rest,
        length-append c.buffer (rel.pending c.stream),
        ap length e,
      ))
  after_read-Overflows again c (err _, s₁) sent short large later a read = elim a [ ]

  read_rounds-Overflows :
      (f : ℕ) (c : Connection S)
      → c.buffer ++ rel.pending c.stream ≡ p ++ rest
      → length c.buffer ≤ max_buffered_bytes
      → max_buffered_bytes ≤ length p
      → max_buffered_bytes < length t
      → max_buffered_bytes < f + length c.buffer
      → Overflows (read_rounds contiguous net f c)
  unfolding read_rounds after_parse
  read_rounds-Overflows zero c sent small large long enough = absurd (omega arith)
  read_rounds-Overflows (suc f) c sent small large long enough =
      elim (dec_le max_buffered_bytes (length c.buffer)) [
        | yes full ↦
            rw
              (
                parse_frame_cut net rel x t p q rest s cut fits c sent (omega arith) (omega arith),
                le→leb max_buffered_bytes (length c.buffer) full,
              )
              (c, refl, omega arith)
        | no room ↦
            rw
              (
                parse_frame_cut net rel x t p q rest s cut fits c sent (omega arith) (omega arith),
                lt→leb-false max_buffered_bytes (length c.buffer) (omega arith),
              )
              (after_read-Overflows (read_rounds contiguous net f) c
                (net.read_buf (max_buffered_bytes - length c.buffer) c.stream) sent (omega arith)
                large
                (λ c₁ longer small₁ sent₁.
                  read_rounds-Overflows f c₁ sent₁ small₁ large long (omega arith))
                (rel.read_buf_arrives (max_buffered_bytes - length c.buffer) c.stream (omega arith))
                (laws.read_buf_is (max_buffered_bytes - length c.buffer) c.stream))
      ]

-- Where the buffered bytes and those that the peer still sends begin with a frame that is longer than
-- the buffer's budget, or with a part of one that fills the budget, and reads do not fail,
-- `read_frame` fails for want of room, with a full buffer, over frames that fit the address space.
pub read_frame_overflow :
    {S E : Type 0} (ops : BufOps) (net : StreamOps S E) (buf : IsBuf ops) (laws : IsStream net)
    (rel : IsReliable net) (c : Connection S) (x : Frame) (t p q rest : Bytes)
    → length c.buffer ≤ max_buffered_bytes
    → Spells 0 x t
    → t ≡ p ++ q
    → max_buffered_bytes ≤ length p
    → max_buffered_bytes < length t
    → length t ≤ usize_max
    → c.buffer ++ rel.pending c.stream ≡ p ++ rest
    → (c' : Connection S) × (read_frame ops net c
        ≡ failed (message "Frame cannot fit within the buffer limit") c')
      × (length c'.buffer ≡ max_buffered_bytes)
unfolding read_frame
read_frame_overflow ops net buf laws rel c x t p q rest small s cut large long fits sent =
    rw (IsBuf-unique buf) (
      read_rounds-Overflows net laws rel x t p q rest s cut fits (max_buffered_bytes + 1) c sent
        small large long (omega arith))
