-- ===== src/Connection/Rounds.antt =====
-- The loop of `read_frame` of src/connection.rs, with its buffer and the bytes that arrive.
use mini_redis.Prelude.{
  ℕ, zero, suc, ◌+◌, ◌-◌, ◌≤◌, ◌<◌, ◌≡◌, refl, sym, ap, ◌∙◌, Option, none, some, [], ◌∷◌, ◌++◌,
  append_assoc, append-nil, arith, inl, inr, Bool-cases, leb, leb→le, length, length-append,
}
use mini_redis.Text.{Bytes}
use mini_redis.Config.{max_buffered_bytes}
use mini_redis.Buf.{BufOps, IsBuf, IsBuf-unique, contiguous, new_cursor, Cursor}
use mini_redis.Frame.{Frame, incomplete}
use mini_redis.Frame.Reader
use mini_redis.Frame.Parse.{parse}
use mini_redis.Frame.Grammar.{Spells}
use mini_redis.Stream.{Reply, ok, err, StreamOps, IsStream, Read, read_some, not_read}
use mini_redis.Connection.{
  Connection, Failure, message, Run, returned, failed, panicked, out_of_fuel, parse_frame,
  after_read, after_parse, read_rounds, read_frame,
}
use mini_redis.Connection.Causes.{Because, malformed, no_room, broken_off, stream_failed}
use mini_redis.Connection.Read.{TakesFrame, takes, waits, refuses, parse_frame-TakesFrame}

module _ {S E : Type 0} (net : StreamOps S E) (laws : IsStream net) where
  -- From `c` to `c'` the bytes `arrived` came in and `taken` left the front of the buffer; nothing
  -- was written.
  pub record Passes (c c' : Connection S) (arrived taken : Bytes) : Type 0 where
    pub arrives : laws.received c'.stream ≡ laws.received c.stream ++ arrived
    pub splits : c.buffer ++ arrived ≡ taken ++ c'.buffer
    pub silent : laws.written c'.stream ≡ laws.written c.stream

  -- How a call of `read_frame` ends.
  pub data Fetches (c : Connection S) : Run S E (Option Frame) → Type 0 where
    fetched :
        {x : Frame} {c' : Connection S} (arrived t : Bytes)
        → Spells 0 x t
        → Passes c c' arrived t
        → length c'.buffer ≤ max_buffered_bytes
        → Fetches c (returned (some x) c')
    closed :
        {c' : Connection S}
        → c.buffer ≡ []
        → c'.buffer ≡ []
        → net.read_buf max_buffered_bytes c.stream ≡ (ok [], c'.stream)
        → Passes c c' [] []
        → Fetches c (returned none c')
    gave_up :
        {e : Failure E} {c' : Connection S} (arrived : Bytes)
        → Because net c' e
        → Passes c c' arrived []
        → length c'.buffer ≤ max_buffered_bytes
        → Fetches c (failed e c')

  Passes-refl : (c : Connection S) → Passes c c [] []
  Passes-refl c = record {
    arrives = sym (append-nil (laws.received c.stream));
    splits = append-nil c.buffer;
    silent = refl;
  }

  -- A read, and then what the later rounds do.
  Passes-read :
      (c : Connection S) (s : S) (bytes : Bytes) {c' : Connection S} {arrived taken : Bytes}
      → laws.received s ≡ laws.received c.stream ++ bytes
      → laws.written s ≡ laws.written c.stream
      → Passes (record { stream = s; buffer = c.buffer ++ bytes }) c' arrived taken
      → Passes c c' (bytes ++ arrived) taken
  Passes-read c s bytes {c'} {arrived} r w p = record {
    arrives =
        p.arrives ∙ ap (λ x. x ++ arrived) r ∙ append_assoc (laws.received c.stream) bytes arrived;
    splits = sym (append_assoc c.buffer bytes arrived) ∙ p.splits;
    silent = p.silent ∙ w;
  }

  Fetches-read :
      (c : Connection S) (s : S) (b : ℕ) (bytes : Bytes) {r : Run S E (Option Frame)}
      → laws.received s ≡ laws.received c.stream ++ (b ∷ bytes)
      → laws.written s ≡ laws.written c.stream
      → Fetches (record { stream = s; buffer = c.buffer ++ b ∷ bytes }) r
      → Fetches c r
  Fetches-read c s b bytes r w (fetched arrived t spells p small) =
      fetched ((b ∷ bytes) ++ arrived) t spells (Passes-read c s (b ∷ bytes) r w p) small
  Fetches-read c s b bytes r w (closed empty _ _ _) =
      absurd (omega (arith, length-append c.buffer (b ∷ bytes), ap length empty))
  Fetches-read c s b bytes r w (gave_up arrived why p small) =
      gave_up ((b ∷ bytes) ++ arrived) why (Passes-read c s (b ∷ bytes) r w p) small

  module _ (again : Connection S → Run S E (Option Frame)) (c : Connection S)
      (small : length c.buffer ≤ max_buffered_bytes)
      (later : (c₁ : Connection S)
        → length c.buffer < length c₁.buffer
        → length c₁.buffer ≤ max_buffered_bytes
        → Fetches c₁ (again c₁)) where
    at_eof :
        (b : Bytes) (s : S) (cursor : Cursor)
        → parse contiguous (new_cursor c.buffer) ≡ Reader.err incomplete cursor
        → c.buffer ≡ b
        → net.read_buf (max_buffered_bytes - length c.buffer) c.stream ≡ (ok [], s)
        → Passes c (record c { stream = s }) [] []
        → Fetches c (elim b [
          | [] ↦ returned none (record c { stream = s })
          | x ∷ rest ↦
              failed
                (message "Connection reached EOF with an incomplete frame")
                (record c { stream = s })
        ])
    at_eof [] s cursor found e read p =
        let whole : max_buffered_bytes - length c.buffer ≡ max_buffered_bytes =
          omega (arith, ap length e) in
        closed e e (ap (λ n. net.read_buf n c.stream) (sym whole) ∙ read) p
    at_eof (x ∷ b) s cursor found e read p =
        gave_up []
          (broken_off c.stream cursor found (λ empty. omega (arith, ap length e, ap length empty))
            read)
          p small

    after_read-Fetches :
        (r : Reply E Bytes × S) (cursor : Cursor)
        → parse contiguous (new_cursor c.buffer) ≡ Reader.err incomplete cursor
        → net.read_buf (max_buffered_bytes - length c.buffer) c.stream ≡ r
        → Read laws.written laws.received (max_buffered_bytes - length c.buffer) c.stream r
        → Fetches c (after_read net again c r)
    unfolding after_read
    after_read-Fetches (err x, s) cursor found read (not_read same silent) =
        gave_up [] (stream_failed c.stream x read)
          (record {
            arrives = same ∙ sym (append-nil (laws.received c.stream));
            splits = append-nil c.buffer;
            silent = silent;
          })
          small
    after_read-Fetches (ok [], s) cursor found read (read_some few got silent) =
        at_eof c.buffer s cursor found refl read
          (record { arrives = got; splits = append-nil c.buffer; silent = silent })
    after_read-Fetches (ok (b ∷ bytes), s) cursor found read (read_some few got silent) =
        Fetches-read c s b bytes got silent (
          later (record { stream = s; buffer = c.buffer ++ b ∷ bytes })
            (omega (arith, length-append c.buffer (b ∷ bytes)))
            (omega (arith, length-append c.buffer (b ∷ bytes))))

    after_parse-Fetches :
        (r : Run S E (Option Frame)) → TakesFrame c r → Fetches c (after_parse net again r)
    unfolding after_parse
    after_parse-Fetches (returned (some x) c') (takes t s split same) =
        fetched [] t s
          (record {
            arrives = ap laws.received same ∙ sym (append-nil (laws.received c.stream));
            splits = append-nil c.buffer ∙ split;
            silent = ap laws.written same;
          })
          (omega (arith, ap length split ∙ length-append t c'.buffer))
    after_parse-Fetches (returned none _) (waits cursor found) =
        elim (Bool-cases (leb max_buffered_bytes (length c.buffer))) [
          | inl full ↦
              let filled : length c.buffer ≡ max_buffered_bytes =
                omega (arith, leb→le max_buffered_bytes (length c.buffer) full) in
              rw full (gave_up [] (no_room cursor found filled) (Passes-refl c) small)
          | inr room ↦ rw room (
              after_read-Fetches (net.read_buf (max_buffered_bytes - length c.buffer) c.stream)
                cursor found refl
                (laws.read_buf_is (max_buffered_bytes - length c.buffer) c.stream))
        ]
    after_parse-Fetches (failed e _) (refuses m cursor found) =
        gave_up [] (malformed m cursor found) (Passes-refl c) small
    after_parse-Fetches panicked h = elim h [ ]
    after_parse-Fetches out_of_fuel h = elim h [ ]

  read_rounds-Fetches :
      (f : ℕ) (c : Connection S)
      → length c.buffer ≤ max_buffered_bytes
      → max_buffered_bytes < f + length c.buffer
      → Fetches c (read_rounds contiguous net f c)
  unfolding read_rounds
  read_rounds-Fetches zero c small enough = absurd (omega arith)
  read_rounds-Fetches (suc f) c small enough =
      after_parse-Fetches (read_rounds contiguous net f) c small
        (λ c₁ longer small₁. read_rounds-Fetches f c₁ small₁ (omega arith))
        (parse_frame contiguous c) (parse_frame-TakesFrame c (omega arith))

-- From a buffer within its budget, `read_frame` ends, with no panic and within its fuel. It returns
-- a frame spelled by the front of the buffer and the bytes that arrived meanwhile, and keeps the
-- rest; or `None` where the read of an empty buffer is at EOF; or an error with its cause: the
-- parser's refusal of what is buffered, a full buffer with no whole frame, EOF behind a part of one,
-- or the error of the last read, with every byte still buffered. The buffer stays within its budget,
-- and nothing is written.
pub read_frame_lem :
    {S E : Type 0} (ops : BufOps) (net : StreamOps S E) (buf : IsBuf ops) (laws : IsStream net)
    (c : Connection S)
    → length c.buffer ≤ max_buffered_bytes
    → Fetches net laws c (read_frame ops net c)
unfolding read_frame
read_frame_lem ops net buf laws c small =
    rw (IsBuf-unique buf)
      (read_rounds-Fetches net laws (max_buffered_bytes + 1) c small (omega arith))
