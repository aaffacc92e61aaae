-- ===== src/Connection/Truncated.antt =====
-- `read_frame` of src/connection.rs where the peer sends a part of a frame and closes.
use mini_redis.Prelude.{
  ℕ, zero, suc, ◌+◌, ◌-◌, ◌≤◌, ◌<◌, ◌≡◌, refl, sym, ap, ◌∙◌, Option, [], ◌∷◌, ◌++◌, append_assoc,
  append-nil, arith, length, length-append,
}
use mini_redis.Text.{Bytes}
use mini_redis.Config.{max_buffered_bytes, usize_max}
use mini_redis.Buf.{BufOps, IsBuf, IsBuf-unique, contiguous}
use mini_redis.Frame.{Frame}
use mini_redis.Frame.Grammar.{Spells}
use mini_redis.Stream.{Reply, ok, err, StreamOps, IsStream, IsReliable, Arrives, arrived, at_end}
use mini_redis.Connection.{
  Connection, Run, after_read, after_parse, read_rounds, read_frame, failed, message,
}
use mini_redis.Connection.Complete.{lt→leb-false}
use mini_redis.Connection.Cut.{parse_frame_cut}

module _ {S E : Type 0} (net : StreamOps S E) (laws : IsStream net) (rel : IsReliable net)
    (x : Frame) (t p q rest : Bytes) (s : Spells 0 x t) (cut : t ≡ p ++ q)
    (fits : length t ≤ usize_max) where
  abbrev BreaksOff : Run S E (Option Frame) → Type 0
  BreaksOff r =
      (c : Connection S) × (r
        ≡ failed (message "Connection reached EOF with an incomplete frame") c)
      × (c.buffer ≡ p)

  -- The end of the input behind a part of a frame.
  after_end :
      (again : Connection S → Run S E (Option Frame)) (c : Connection S) (s₁ : S)
      → c.buffer ≡ p
      → 0 < length p
      → after_read net again c (ok [], s₁)
        ≡ failed
            (message "Connection reached EOF with an incomplete frame")
            (record c { stream = s₁ })
  unfolding after_read
  after_end again c s₁ is some_read = go c.buffer (omega (arith, ap length is))
    where
      go :
          (b : Bytes)
          → 0 < length b
          → after_read net again (record c { buffer = b }) (ok [], s₁)
            ≡ failed
                (message "Connection reached EOF with an incomplete frame")
                (record { stream = s₁; buffer = b })
      go [] h = absurd (omega arith)
      go (b ∷ s) h = refl

  after_read-BreaksOff :
      (again : Connection S → Run S E (Option Frame)) (c : Connection S) (r : Reply E Bytes × S)
      → rest ≡ []
      → c.buffer ++ rel.pending c.stream ≡ p ++ rest
      → 0 < length p
      → ((c₁ : Connection S)
          → length c.buffer < length c₁.buffer
          → c₁.buffer ++ rel.pending c₁.stream ≡ p ++ rest
          → BreaksOff (again c₁))
      → Arrives rel.pending c.stream r
      → BreaksOff (after_read net again c r)
  after_read-BreaksOff again c (ok _, s₁) none_behind sent some_read later (arrived b u e) =
      unfold after_read in
      later (record { stream = s₁; buffer = c.buffer ++ (b ∷ u) })
        (omega (arith, length-append c.buffer (b ∷ u)))
        (append_assoc c.buffer (b ∷ u) (rel.pending s₁) ∙ ap (λ v. c.buffer ++ v) (sym e) ∙ sent)
  after_read-BreaksOff again c (ok _, s₁) none_behind sent some_read later (at_end e _) =
      let all : c.buffer ≡ p =
        sym (append-nil c.buffer)
        ∙ ap (λ v. c.buffer ++ v) (sym e)
        ∙ sent
        ∙ ap (λ v. p ++ v) none_behind
        ∙ append-nil p in
      (record c { stream = s₁ }, after_end again c s₁ all some_read, all)
  after_read-BreaksOff again c (err _, s₁) none_behind sent some_read later a = elim a [ ]

  read_rounds-BreaksOff :
      (f : ℕ) (c : Connection S)
      → rest ≡ []
      → c.buffer ++ rel.pending c.stream ≡ p ++ rest
      → 0 < length p
      → length p < max_buffered_bytes
      → length p < length t
      → length p < f + length c.buffer
      → BreaksOff (read_rounds contiguous net f c)
  unfolding read_rounds after_parse
  read_rounds-BreaksOff zero c none_behind sent some_read few short enough = absurd (
      omega (
        arith,
        ap length sent ∙ length-append p rest,
        length-append c.buffer (rel.pending c.stream),
        ap length none_behind,
      ))
  read_rounds-BreaksOff (suc f) c none_behind sent some_read few short enough =
      let inside : length c.buffer ≤ length p = omega (
        arith,
        ap length sent ∙ length-append p rest,
        length-append c.buffer (rel.pending c.stream),
        ap length none_behind,
      ) in
      rw
        (
          parse_frame_cut net rel x t p q rest s cut fits c sent inside (omega arith),
          lt→leb-false max_buffered_bytes (length c.buffer) (omega arith),
        )
        (after_read-BreaksOff (read_rounds contiguous net f) c
          (net.read_buf (max_buffered_bytes - length c.buffer) c.stream) none_behind sent some_read
          (λ c₁ longer sent₁.
            read_rounds-BreaksOff f c₁ none_behind sent₁ some_read few short (omega arith))
          (rel.read_buf_arrives (max_buffered_bytes - length c.buffer) c.stream (omega arith)))

-- Where all that is buffered and that the peer still sends is a part of a frame, but not nothing,
-- fits the buffer's budget with room to spare, and reads do not fail, `read_frame` fails at the end of
-- the input, with that part in the buffer, over frames that fit the address space.
pub read_frame_truncated :
    {S E : Type 0} (ops : BufOps) (net : StreamOps S E) (buf : IsBuf ops) (laws : IsStream net)
    (rel : IsReliable net) (c : Connection S) (x : Frame) (t p q : Bytes)
    → Spells 0 x t
    → t ≡ p ++ q
    → 0 < length p
    → 0 < length q
    → length p < max_buffered_bytes
    → length t ≤ usize_max
    → c.buffer ++ rel.pending c.stream ≡ p
    → (c' : Connection S) × (read_frame ops net c
        ≡ failed (message "Connection reached EOF with an incomplete frame") c')
      × (c'.buffer ≡ p)
unfolding read_frame
read_frame_truncated ops net buf laws rel c x t p q s cut some_read missing few fits sent =
    rw (IsBuf-unique buf) (
      read_rounds-BreaksOff net laws rel x t p q [] s cut fits (max_buffered_bytes + 1) c refl
        (sent ∙ sym (append-nil p)) some_read few (omega (arith, ap length cut ∙ length-append p q))
        (omega arith))
