-- ===== src/Stream.antt =====
-- The buffered TCP stream of tokio, `BufWriter<TcpStream>`, which is a parameter: `S` is its state
-- and `E` its `std::io::Error`.
use mini_redis.Prelude.{ℕ, ◌≤◌, ◌<◌, ◌≡◌, ◌++◌, ◌∷◌, [], length}
use mini_redis.Text.{Bytes}

pub data Reply {ℓ} (E : Type 0) (A : Type ℓ) : Type ℓ where
  ok : A → Reply E A
  err : E → Reply E A

-- An awaited call that completes. A call that stays pending has no counterpart.
abbrev pub Io : Type 0 → Type 0 → Type 0 → Type 0
Io S E A = S → Reply E A × S

pub record StreamOps (S E : Type 0) : Type 0 where
  pub write_u8 : ℕ → Io S E (Unit {0})
  pub write_all : Bytes → Io S E (Unit {0})
  pub flush : Io S E (Unit {0})
  -- `read_buf` into a buffer limited to so many more bytes: the bytes that it appends, none at EOF.
  pub read_buf : ℕ → Io S E Bytes
  -- `to_string` of an error.
  pub error_text : E → Bytes

-- A write takes a prefix of its bytes, the whole if it succeeds.
pub data Wrote {S E : Type 0} (written : S → Bytes) (s : S) (t : Bytes)
    : Reply E (Unit {0}) × S → Type 0 where
  wrote_all : {s' : S} → written s' ≡ written s ++ t → Wrote written s t (ok tt, s')
  wrote_part :
      {s' : S} {e : E} (p q : Bytes)
      → t ≡ p ++ q
      → written s' ≡ written s ++ p
      → Wrote written s t (err e, s')

-- A flush that succeeds has handed on all that was written; it never writes by itself.
pub data Flushed {S E : Type 0} (written sent : S → Bytes) (s : S)
    : Reply E (Unit {0}) × S → Type 0 where
  flushed :
      {s' : S} → written s' ≡ written s → sent s' ≡ written s' → Flushed written sent s (ok tt, s')
  not_flushed : {s' : S} {e : E} → written s' ≡ written s → Flushed written sent s (err e, s')

-- A read returns the next bytes that have arrived, at most as many as asked, and writes nothing.
pub data Read {S E : Type 0} (written received : S → Bytes) (limit : ℕ) (s : S)
    : Reply E Bytes × S → Type 0 where
  read_some :
      {s' : S} {t : Bytes}
      → length t ≤ limit
      → received s' ≡ received s ++ t
      → written s' ≡ written s
      → Read written received limit s (ok t, s')
  not_read :
      {s' : S} {e : E}
      → received s' ≡ received s
      → written s' ≡ written s
      → Read written received limit s (err e, s')

-- What tokio documents of these calls, over the bytes that the stream has accepted for writing,
-- has handed to the network, and has delivered to the program.
pub record IsStream {S E : Type 0} (io : StreamOps S E) : Type 0 where
  pub written : S → Bytes
  pub sent : S → Bytes
  pub received : S → Bytes
  pub write_u8_is : (b : ℕ) (s : S) → Wrote written s (b ∷ []) (io.write_u8 b s)
  pub write_all_is : (t : Bytes) (s : S) → Wrote written s t (io.write_all t s)
  pub write_u8_keeps : (b : ℕ) (s : S) → received (io.write_u8 b s).1 ≡ received s
  pub write_all_keeps : (t : Bytes) (s : S) → received (io.write_all t s).1 ≡ received s
  pub flush_is : (s : S) → Flushed written sent s (io.flush s)
  pub flush_keeps : (s : S) → received (io.flush s).1 ≡ received s
  pub read_buf_is : (limit : ℕ) (s : S) → Read written received limit s (io.read_buf limit s)

-- A read of at least one byte on a connection with no I/O error: some of the bytes that the peer
-- sends, in order, or none once all of them have been read.
pub data Arrives {S E : Type 0} (pending : S → Bytes) (s : S) : Reply E Bytes × S → Type 0 where
  arrived :
      {s' : S} (b : ℕ) (t : Bytes)
      → pending s ≡ (b ∷ t) ++ pending s'
      → Arrives pending s (ok (b ∷ t), s')
  at_end : {s' : S} → pending s ≡ [] → pending s' ≡ [] → Arrives pending s (ok [], s')

-- A stream on which reads do not fail; `pending` is what the peer sends before it closes its side,
-- less what was read.
pub record IsReliable {S E : Type 0} (io : StreamOps S E) : Type 0 where
  pub pending : S → Bytes
  pub read_buf_arrives : (limit : ℕ) (s : S) → 0 < limit → Arrives pending s (io.read_buf limit s)

-- A write that succeeds, and takes nothing off what the peer sends.
pub data Goes {S E : Type 0} (pending : S → Bytes) (s : S) : Reply E (Unit {0}) × S → Type 0 where
  goes : {s' : S} → pending s' ≡ pending s → Goes pending s (ok tt, s')

-- A stream on which writes do not fail either, in the terms of `IsReliable`.
pub record IsOpen {S E : Type 0} (io : StreamOps S E) (pending : S → Bytes) : Type 0 where
  pub write_u8_goes : (b : ℕ) (s : S) → Goes pending s (io.write_u8 b s)
  pub write_all_goes : (t : Bytes) (s : S) → Goes pending s (io.write_all t s)
  pub flush_goes : (s : S) → Goes pending s (io.flush s)
