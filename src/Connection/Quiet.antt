-- ===== src/Connection/Quiet.antt =====
-- A `write_frame` of src/connection.rs reads nothing.
use mini_redis.Prelude.{ℕ, ◌≡◌, refl, ◌∙◌, length}
use mini_redis.Text.{Bytes, codes, crlf, usize_to_string, i64_to_string}
use mini_redis.Frame.{
  Frame, Frames, simple, error, integer, bulk, array, null, nil, cons, frame_count,
}
use mini_redis.Stream.{Reply, ok, err, Io, StreamOps, IsStream}
use mini_redis.Connection.{and_then, ◌>>◌, write_line, write_data, write_elements, write_frame}

module _ {S E : Type 0} (net : StreamOps S E) (laws : IsStream net) where
  -- From any state, the action takes no byte from the stream.
  abbrev ReadsNone : Io S E (Unit {0}) → Type 0
  ReadsNone m = (s : S) → laws.received (m s).1 ≡ laws.received s

  seq-ReadsNone : (m k : Io S E (Unit {0})) → ReadsNone m → ReadsNone k → ReadsNone (m >> k)
  seq-ReadsNone m k hm hk s = go (m s) (hm s)
    where
      go :
          (r : Reply E (Unit {0}) × S)
          → laws.received r.1 ≡ laws.received s
          → laws.received (and_then r (λ _. k)).1 ≡ laws.received s
      go (ok u, s') h = hk s' ∙ h
      go (err e, s') h = h

  write_line-ReadsNone : (b : ℕ) (t : Bytes) → ReadsNone (write_line net b t)
  unfolding write_line
  write_line-ReadsNone b t =
      seq-ReadsNone (net.write_u8 b) (net.write_all t >> net.write_all crlf) (laws.write_u8_keeps b)
        (seq-ReadsNone (net.write_all t) (net.write_all crlf) (laws.write_all_keeps t)
          (laws.write_all_keeps crlf))

  mutual
    unfolding write_data

    write_data-ReadsNone : (x : Frame) → ReadsNone (write_data net x)
    write_data-ReadsNone (simple s) = write_line-ReadsNone b'+' s
    write_data-ReadsNone (error s) = write_line-ReadsNone b'-' s
    write_data-ReadsNone (integer z) = write_line-ReadsNone b':' (i64_to_string z)
    write_data-ReadsNone (bulk s) =
        seq-ReadsNone (write_line net b'$' (usize_to_string (length s)))
          (net.write_all s >> net.write_all crlf)
          (write_line-ReadsNone b'$' (usize_to_string (length s)))
          (seq-ReadsNone (net.write_all s) (net.write_all crlf) (laws.write_all_keeps s)
            (laws.write_all_keeps crlf))
    write_data-ReadsNone (array fs) =
        seq-ReadsNone (write_line net b'*' (usize_to_string (frame_count fs)))
          (write_elements net fs) (write_line-ReadsNone b'*' (usize_to_string (frame_count fs)))
          (write_elements-ReadsNone fs)
    write_data-ReadsNone null = laws.write_all_keeps (codes "$-1\r\n")

    write_elements-ReadsNone : (fs : Frames) → ReadsNone (write_elements net fs)
    write_elements-ReadsNone nil = λ s. refl
    write_elements-ReadsNone (cons x fs) =
        seq-ReadsNone (write_data net x) (write_elements net fs) (write_data-ReadsNone x)
          (write_elements-ReadsNone fs)

  -- Whatever is written, and even if that fails, the bytes delivered to the program are as before.
  pub write_frame-quiet :
      (x : Frame) (s : S) → laws.received (write_frame net x s).1 ≡ laws.received s
  unfolding write_frame
  write_frame-quiet x =
      seq-ReadsNone (write_data net x) net.flush (write_data-ReadsNone x) laws.flush_keeps
