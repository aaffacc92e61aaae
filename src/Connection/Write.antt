-- ===== src/Connection/Write.antt =====
-- What `write_frame` of src/connection.rs puts on the stream.
use mini_redis.Prelude.{ℕ, ◌≡◌, sym, ap, ◌∙◌, [], ◌∷◌, ◌++◌, append_assoc, append-nil, length}
use mini_redis.Text.{Bytes, codes, crlf, usize_to_string, i64_to_string}
use mini_redis.Frame.{
  Frame, Frames, simple, error, integer, bulk, array, null, nil, cons, frame_count,
}
use mini_redis.Frame.Encode.{encode, encode_all}
use mini_redis.Stream.{
  Reply, ok, err, Io, StreamOps, IsStream, Wrote, wrote_all, wrote_part, Flushed, flushed,
  not_flushed,
}
use mini_redis.Connection.{
  and_then, ◌>>◌, done, write_line, write_data, write_elements, write_frame,
}

module _ {S E : Type 0} (net : StreamOps S E) (laws : IsStream net) where
  -- From any state, the action writes `t`, or a prefix of it and stops with an error.
  abbrev Writes : Io S E (Unit {0}) → Bytes → Type 0
  Writes m t = (s : S) → Wrote laws.written s t (m s)

  Writes-seq :
      (m k : Io S E (Unit {0})) (t u : Bytes) → Writes m t → Writes k u → Writes (m >> k) (t ++ u)
  Writes-seq m k t u hm hk s = go (m s) (hm s)
    where
      go :
          (r : Reply E (Unit {0}) × S)
          → Wrote laws.written s t r
          → Wrote laws.written s (t ++ u) (and_then r (λ _. k))
      go (ok tt, s') (wrote_all e) = later (k s') (hk s')
        where
          later :
              (r : Reply E (Unit {0}) × S)
              → Wrote laws.written s' u r
              → Wrote laws.written s (t ++ u) r
          later (ok tt, s'') (wrote_all e') =
              wrote_all (e' ∙ ap (λ w. w ++ u) e ∙ append_assoc (laws.written s) t u)
          later (err x, s'') (wrote_part p q split e') =
              wrote_part (t ++ p) q (ap (λ w. t ++ w) split ∙ sym (append_assoc t p q))
                (e' ∙ ap (λ w. w ++ p) e ∙ append_assoc (laws.written s) t p)
      go (err x, s') (wrote_part p q split e) =
          wrote_part p (q ++ u) (ap (λ w. w ++ u) split ∙ append_assoc p q u) e

  Writes-done : Writes done []
  Writes-done s = wrote_all (sym (append-nil (laws.written s)))

  write_line-Writes : (b : ℕ) (t : Bytes) → Writes (write_line net b t) (b ∷ (t ++ crlf))
  unfolding write_line
  write_line-Writes b t =
      Writes-seq (net.write_u8 b) (net.write_all t >> net.write_all crlf) (b ∷ []) (t ++ crlf)
        (laws.write_u8_is b)
        (Writes-seq (net.write_all t) (net.write_all crlf) t crlf (laws.write_all_is t)
          (laws.write_all_is crlf))

  mutual
    unfolding write_data encode

    write_data-Writes : (x : Frame) → Writes (write_data net x) (encode x)
    write_data-Writes (simple s) = write_line-Writes b'+' s
    write_data-Writes (error s) = write_line-Writes b'-' s
    write_data-Writes (integer z) = write_line-Writes b':' (i64_to_string z)
    write_data-Writes (bulk s) =
        Writes-seq (write_line net b'$' (usize_to_string (length s)))
          (net.write_all s >> net.write_all crlf) (b'$' ∷ (usize_to_string (length s) ++ crlf))
          (s ++ crlf) (write_line-Writes b'$' (usize_to_string (length s)))
          (Writes-seq (net.write_all s) (net.write_all crlf) s crlf (laws.write_all_is s)
            (laws.write_all_is crlf))
    write_data-Writes (array fs) =
        Writes-seq (write_line net b'*' (usize_to_string (frame_count fs))) (write_elements net fs)
          (b'*' ∷ (usize_to_string (frame_count fs) ++ crlf)) (encode_all fs)
          (write_line-Writes b'*' (usize_to_string (frame_count fs))) (write_elements-Writes fs)
    write_data-Writes null = laws.write_all_is (codes "$-1\r\n")

    write_elements-Writes : (fs : Frames) → Writes (write_elements net fs) (encode_all fs)
    write_elements-Writes nil = Writes-done
    write_elements-Writes (cons x fs) =
        Writes-seq (write_data net x) (write_elements net fs) (encode x) (encode_all fs)
          (write_data-Writes x) (write_elements-Writes fs)

  -- On success the frame has been handed to the network behind all that was written before; on an
  -- error a prefix of it was written.
  pub data Delivers (s : S) (t : Bytes) : Reply E (Unit {0}) × S → Type 0 where
    delivered :
        {s' : S}
        → laws.written s' ≡ laws.written s ++ t
        → laws.sent s' ≡ laws.written s ++ t
        → Delivers s t (ok tt, s')
    interrupted :
        {s' : S} {e : E} (p q : Bytes)
        → t ≡ p ++ q
        → laws.written s' ≡ laws.written s ++ p
        → Delivers s t (err e, s')

  write_frame-Delivers : (x : Frame) (s : S) → Delivers s (encode x) (write_frame net x s)
  unfolding write_frame
  write_frame-Delivers x s = go (write_data net x s) (write_data-Writes x s)
    where
      go :
          (r : Reply E (Unit {0}) × S)
          → Wrote laws.written s (encode x) r
          → Delivers s (encode x) (and_then r (λ _. net.flush))
      go (ok tt, s') (wrote_all e) = last (net.flush s') (laws.flush_is s')
        where
          last :
              (r : Reply E (Unit {0}) × S)
              → Flushed laws.written laws.sent s' r
              → Delivers s (encode x) r
          last (ok tt, s'') (flushed same all) = delivered (same ∙ e) (all ∙ same ∙ e)
          last (err y, s'') (not_flushed same) =
              interrupted (encode x) [] (sym (append-nil (encode x))) (same ∙ e)
      go (err y, s') (wrote_part p q split e) = interrupted p q split e

-- A `write_frame` that succeeds has handed the encoding of the frame to the network, behind all
-- that was written before; one that fails has written a prefix of the encoding, maybe all of it.
pub write_frame_lem :
    {S E : Type 0} (net : StreamOps S E) (laws : IsStream net) (x : Frame) (s : S)
    → Delivers net laws s (encode x) (write_frame net x s)
write_frame_lem net laws x s = write_frame-Delivers net laws x s
