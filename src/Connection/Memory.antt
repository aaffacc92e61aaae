-- ===== src/Connection/Memory.antt =====
-- A network in memory, which does what tokio documents: chunks that arrive one by one, and what is
-- written and flushed.
use native.Mathlib.Omega.{arith}
use mini_redis.Prelude.{
  ℕ, zero, suc, ◌≡◌, ◌<◌, refl, sym, ap, ◌∙◌, ◌++◌, append_assoc, List, [], ◌∷◌, take, drop,
  length-take, take-append-drop, append-nil,
}
use mini_redis.Text.{Bytes, codes}
use mini_redis.Stream.{
  ok, Io, StreamOps, IsStream, wrote_all, flushed, IsReliable, IsOpen, goes, Arrives, arrived,
  at_end, Read, read_some,
}

pub record Memory : Type 0 where
  pub incoming : List Bytes
  pub received : Bytes
  pub written : Bytes
  pub sent : Bytes

abbrev pub arriving : List Bytes → Memory
arriving chunks = record { incoming = chunks; received = []; written = []; sent = [] }

-- A chunk that is longer than the limit is read in parts.
unfoldable pub read_chunk : ℕ → List Bytes → Io Memory (Unit {0}) Bytes
read_chunk limit [] s = (ok [], record s { incoming = [] })
read_chunk limit ([] ∷ later) s = read_chunk limit later s
read_chunk limit ((b ∷ t) ∷ later) s =
    let part = take limit (b ∷ t) in
    (ok part, record s { incoming = drop limit (b ∷ t) ∷ later; received = s.received ++ part })

abbrev pub memory : StreamOps Memory (Unit {0})
memory = record {
  write_u8 = λ b s. (ok tt, record s { written = s.written ++ b ∷ [] });
  write_all = λ t s. (ok tt, record s { written = s.written ++ t });
  flush = λ s. (ok tt, record s { sent = s.written });
  read_buf = λ limit s. read_chunk limit s.incoming s;
  error_text = λ _. codes "chunk too long";
}

pub read_chunk-Read :
    (limit : ℕ) (chunks : List Bytes) (s : Memory)
    → Read (λ s. s.written) (λ s. s.received) limit s (read_chunk limit chunks s)
unfolding read_chunk
read_chunk-Read limit [] s = read_some (omega arith) (sym (append-nil s.received)) refl
read_chunk-Read limit ([] ∷ later) s = read_chunk-Read limit later s
read_chunk-Read limit ((b ∷ t) ∷ later) s =
    read_some (omega (arith, length-take limit (b ∷ t))) refl refl

-- The chunks one behind the other.
abbrev pub joined : List Bytes → Bytes
joined [] = []
joined (chunk ∷ later) = chunk ++ joined later

pub read_chunk-Arrives :
    (limit : ℕ) (chunks : List Bytes) (s : Memory)
    → 0 < limit
    → joined s.incoming ≡ joined chunks
    → Arrives (λ s. joined s.incoming) s (read_chunk limit chunks s)
unfolding read_chunk
read_chunk-Arrives limit [] s positive e = at_end e refl
read_chunk-Arrives limit ([] ∷ later) s positive e = read_chunk-Arrives limit later s positive e
read_chunk-Arrives zero ((b ∷ t) ∷ later) s positive e = absurd (omega arith)
read_chunk-Arrives (suc n) ((b ∷ t) ∷ later) s positive e = arrived b (take n t) (
    e
    ∙ ap (λ u. b ∷ (u ++ joined later)) (sym (take-append-drop n t))
    ∙ ap (◌∷◌ b) (append_assoc (take n t) (drop n t) (joined later)))

unfoldable pub memory-IsStream : IsStream memory
memory-IsStream = record {
  written = λ s. s.written;
  sent = λ s. s.sent;
  received = λ s. s.received;
  write_u8_is = λ b s. wrote_all refl;
  write_all_is = λ t s. wrote_all refl;
  write_u8_keeps = λ b s. refl;
  write_all_keeps = λ t s. refl;
  flush_is = λ s. flushed refl refl;
  flush_keeps = λ s. refl;
  read_buf_is = λ limit s. read_chunk-Read limit s.incoming s;
}

unfoldable pub memory-IsReliable : IsReliable memory
memory-IsReliable = record {
  pending = λ s. joined s.incoming;
  read_buf_arrives = λ limit s positive. read_chunk-Arrives limit s.incoming s positive refl;
}

pub memory-IsOpen : IsOpen memory memory-IsReliable.pending
unfolding memory-IsReliable
memory-IsOpen = record {
  write_u8_goes = λ b s. goes refl;
  write_all_goes = λ t s. goes refl;
  flush_goes = λ s. goes refl;
}
