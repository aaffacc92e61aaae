-- ===== src/Connection/Complete.antt =====
-- `read_frame` of src/connection.rs where the peer sends a whole frame, however it is cut.
use native.Mathlib.Decide.{dec_le}
use mini_redis.Prelude.{
  ℕ, zero, suc, ◌+◌, ◌-◌, ◌≤◌, ◌<◌, ◌≡◌, refl, sym, ap, ◌∙◌, Option, none, some, [], ◌∷◌, ◌++◌,
  append_assoc, append-nil, arith, inl, inr, leb, le→leb, false, length, length-append,
}
use mini_redis.Text.{Bytes}
use mini_redis.Config.{max_buffered_bytes, usize_max}
use mini_redis.Buf.{
  BufOps, IsBuf, IsBuf-unique, contiguous, contiguous-IsBuf, new_cursor, extended, moved, unread,
  Cursor,
}
use mini_redis.Frame.{Frame}
use mini_redis.Frame.Reader
use mini_redis.Frame.Parse.{parse}
use mini_redis.Frame.Exact.{parse-Spells_iff}
use mini_redis.Frame.Arrival.{parse-prefix}
use mini_redis.Frame.Grammar.{Spells}
use mini_redis.Frame.Grammar.Took.{Took-ahead}
use mini_redis.Stream.{
  Reply, ok, err, StreamOps, IsStream, Read, read_some, IsReliable, Arrives, arrived, at_end,
}
use mini_redis.Connection.{
  Connection, Run, returned, parse_frame, take_frame, after_read, after_parse, read_rounds,
  read_frame,
}
use mini_redis.Connection.Read.{advance-behind}

-- Two ways to cut the same text.
pub append-split :
    (s u t v : Bytes)
    → s ++ u ≡ t ++ v
    → length t ≤ length s
    → (r : Bytes) × (s ≡ t ++ r) × (r ++ u ≡ v)
append-split s u [] v e h = (s, refl, e)
append-split [] u (b ∷ t) v e h = absurd (omega arith)
append-split (a ∷ s) u (b ∷ t) v e h =
    let (r, p, q) = append-split s u t v (cc) (omega arith) in (r, ground arith, q)

parse_ahead :
    (x : Frame) (c : Cursor) (t rest : Bytes)
    → Spells 0 x t
    → length c.contents ≤ usize_max
    → unread c ≡ t ++ rest
    → parse contiguous c ≡ Reader.ok x (moved c (length t))
parse_ahead x c t rest s fits ahead =
    (parse-Spells_iff contiguous contiguous-IsBuf c fits x (moved c (length t))).1
      (t, s, Took-ahead c t rest ahead)

pub lt→leb-false : (a b : ℕ) → b < a → leb a b ≡ false
lt→leb-false a b h = ground arith

module _ {S E : Type 0} where
  parse_frame_ahead :
      (c : Connection S) (x : Frame) (t rest : Bytes)
      → Spells 0 x t
      → length c.buffer ≤ usize_max
      → c.buffer ≡ t ++ rest
      → parse_frame {S = S} {E = E} contiguous c ≡ returned (some x) (record c { buffer = rest })
  unfolding parse_frame take_frame
  parse_frame_ahead c x t rest s fits e =
      let room : 0 + length t ≤ usize_max = omega (arith, ap length e ∙ length-append t rest) in
      ap (λ o. take_frame contiguous o c) (parse_ahead x (new_cursor c.buffer) t rest s fits e)
      ∙ rw (
        take_frame,
        le→leb (0 + length t) usize_max room,
        advance-behind c.buffer t rest (0 + length t) (omega arith) e,
      )

  pub parse_frame_part :
      (c : Connection S) (x : Frame) (t more : Bytes)
      → Spells 0 x t
      → length t ≤ usize_max
      → t ≡ c.buffer ++ more
      → length c.buffer < length t
      → parse_frame {S = S} {E = E} contiguous c ≡ returned none c
  unfolding parse_frame take_frame
  parse_frame_part c x t more s fits e short =
      elim (parse-prefix contiguous contiguous-IsBuf start (moved (extended start more) (length t))
        more x (omega arith) parsed) [
          | inr (c₁, found) ↦ ap (λ o. take_frame contiguous o c) found
          | inl (c₁, found, at) ↦
              let (u, _, took) =
                (parse-Spells_iff contiguous contiguous-IsBuf start (omega arith) x c₁).0 found in
              absurd (
                omega (
                  arith,
                  ap (λ y. y.position) took.moves,
                  ap (λ y. y.position) at,
                  ap length took.splits ∙ length-append u (unread c₁),
                ))
        ]
    where
      start : Cursor
      start = new_cursor c.buffer

      parsed :
          parse contiguous (extended start more)
          ≡ Reader.ok x (moved (extended start more) (length t))
      parsed =
          parse_ahead x (extended start more) t [] s (omega (arith, ap length e))
            (sym e ∙ sym (append-nil t))

  module _ (net : StreamOps S E) (laws : IsStream net) (rel : IsReliable net) (x : Frame)
      (t rest : Bytes) (s : Spells 0 x t) (small : length t ≤ max_buffered_bytes) where
    -- The frame has been read, and the rest is buffered or still to come.
    pub record Got (r : Run S E (Option Frame)) : Type 0 where
      pub left : Connection S
      pub gets : r ≡ returned (some x) left
      pub behind : left.buffer ++ rel.pending left.stream ≡ rest

    after_read-Got :
        (again : Connection S → Run S E (Option Frame)) (c : Connection S) (r : Reply E Bytes × S)
        → c.buffer ++ rel.pending c.stream ≡ t ++ rest
        → length c.buffer < length t
        → length c.buffer ≤ max_buffered_bytes
        → ((c₁ : Connection S)
            → length c.buffer < length c₁.buffer
            → length c₁.buffer ≤ max_buffered_bytes
            → c₁.buffer ++ rel.pending c₁.stream ≡ t ++ rest
            → Got (again c₁))
        → Arrives rel.pending c.stream r
        → Read laws.written laws.received (max_buffered_bytes - length c.buffer) c.stream r
        → Got (after_read net again c r)
    unfolding after_read
    after_read-Got again c (ok _, s₁) sent short fits later (arrived b u e) (read_some few _ _) =
        later (record { stream = s₁; buffer = c.buffer ++ (b ∷ u) })
          (omega (arith, length-append c.buffer (b ∷ u)))
          (omega (arith, length-append c.buffer (b ∷ u)))
          (append_assoc c.buffer (b ∷ u) (rel.pending s₁) ∙ ap (λ p. c.buffer ++ p) (sym e) ∙ sent)
    after_read-Got again c (ok _, s₁) sent short fits later (at_end e e₁) read = absurd (
        omega (
          arith,
          ap length sent ∙ length-append t rest,
          length-append c.buffer (rel.pending c.stream),
          ap length e,
        ))
    after_read-Got again c (err _, s₁) sent short fits later a read = elim a [ ]

    read_rounds-Got :
        (f : ℕ) (c : Connection S)
        → c.buffer ++ rel.pending c.stream ≡ t ++ rest
        → length c.buffer ≤ max_buffered_bytes
        → max_buffered_bytes < f + length c.buffer
        → Got (read_rounds contiguous net f c)
    unfolding read_rounds after_parse
    read_rounds-Got zero c sent fits enough = absurd (omega arith)
    read_rounds-Got (suc f) c sent fits enough = elim (dec_le (length t) (length c.buffer)) [
      | yes whole ↦
          let (r, front, back) = append-split c.buffer (rel.pending c.stream) t rest sent whole in
          rw (parse_frame_ahead c x t r s (omega arith) front)
            (record { left = record c { buffer = r }; gets = refl; behind = back })
      | no part ↦
          let (r, front, back) =
            append-split t rest c.buffer (rel.pending c.stream) (sym sent) (omega arith) in
          rw
            (
              parse_frame_part c x t r s (omega arith) front (omega arith),
              lt→leb-false max_buffered_bytes (length c.buffer) (omega arith),
            )
            (after_read-Got (read_rounds contiguous net f) c
              (net.read_buf (max_buffered_bytes - length c.buffer) c.stream) sent (omega arith) fits
              (λ c₁ longer small₁ sent₁. read_rounds-Got f c₁ sent₁ small₁ (omega arith))
              (rel.read_buf_arrives (max_buffered_bytes - length c.buffer) c.stream (omega arith))
              (laws.read_buf_is (max_buffered_bytes - length c.buffer) c.stream))
    ]

-- Where the buffered bytes and those that the peer still sends begin with a frame of at most the
-- buffer's budget, and reads do not fail, `read_frame` returns that frame, however the bytes are cut,
-- and what follows it is left, in the buffer or still to come.
pub read_frame_complete :
    {S E : Type 0} (ops : BufOps) (net : StreamOps S E) (buf : IsBuf ops) (laws : IsStream net)
    (rel : IsReliable net) (c : Connection S) (x : Frame) (t rest : Bytes)
    → length c.buffer ≤ max_buffered_bytes
    → length t ≤ max_buffered_bytes
    → Spells 0 x t
    → c.buffer ++ rel.pending c.stream ≡ t ++ rest
    → (c' : Connection S) × (read_frame ops net c ≡ returned (some x) c')
      × (c'.buffer ++ rel.pending c'.stream ≡ rest)
unfolding read_frame
read_frame_complete ops net buf laws rel c x t rest fits small s sent =
    let g =
      read_rounds-Got net laws rel x t rest s small (max_buffered_bytes + 1) c sent fits
        (omega arith) in
    rw (IsBuf-unique buf) (g.left, g.gets, g.behind)
