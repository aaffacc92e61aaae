-- ===== src/Connection/Open.antt =====
-- `write_frame` of src/connection.rs on a stream on which writes do not fail.
use mini_redis.Prelude.{ℕ, refl, ◌∙◌, length}
use mini_redis.Text.{Bytes, codes, crlf, usize_to_string, i64_to_string}
use mini_redis.Frame.{
  Frame, Frames, simple, error, integer, bulk, array, null, nil, cons, frame_count,
}
use mini_redis.Stream.{Reply, ok, err, Io, StreamOps, Goes, goes, IsOpen}
use mini_redis.Connection.{and_then, ◌>>◌, write_line, write_data, write_elements, write_frame}

module _ {S E : Type 0} (net : StreamOps S E) (pending : S → Bytes)
    (open_net : IsOpen net pending) where
  abbrev AllGo : Io S E (Unit {0}) → Type 0
  AllGo m = (s : S) → Goes pending s (m s)

  AllGo-seq : (m k : Io S E (Unit {0})) → AllGo m → AllGo k → AllGo (m >> k)
  AllGo-seq m k hm hk s = go (m s) (hm s)
    where
      go : (r : Reply E (Unit {0}) × S) → Goes pending s r → Goes pending s (and_then r (λ _. k))
      go (err e, s') g = elim g [ ]
      go (ok u, s') (goes e) = later (k s') (hk s')
        where
          later : (r : Reply E (Unit {0}) × S) → Goes pending s' r → Goes pending s r
          later (err e, s'') g = elim g [ ]
          later (ok u, s'') (goes e') = goes (e' ∙ e)

  write_line-AllGo : (b : ℕ) (t : Bytes) → AllGo (write_line net b t)
  unfolding write_line
  write_line-AllGo b t =
      AllGo-seq (net.write_u8 b) (net.write_all t >> net.write_all crlf) (open_net.write_u8_goes b)
        (AllGo-seq (net.write_all t) (net.write_all crlf) (open_net.write_all_goes t)
          (open_net.write_all_goes crlf))

  mutual
    unfolding write_data

    write_data-AllGo : (x : Frame) → AllGo (write_data net x)
    write_data-AllGo (simple s) = write_line-AllGo b'+' s
    write_data-AllGo (error s) = write_line-AllGo b'-' s
    write_data-AllGo (integer z) = write_line-AllGo b':' (i64_to_string z)
    write_data-AllGo (bulk s) =
        AllGo-seq (write_line net b'$' (usize_to_string (length s)))
          (net.write_all s >> net.write_all crlf)
          (write_line-AllGo b'$' (usize_to_string (length s)))
          (AllGo-seq (net.write_all s) (net.write_all crlf) (open_net.write_all_goes s)
            (open_net.write_all_goes crlf))
    write_data-AllGo (array fs) =
        AllGo-seq (write_line net b'*' (usize_to_string (frame_count fs))) (write_elements net fs)
          (write_line-AllGo b'*' (usize_to_string (frame_count fs))) (write_elements-AllGo fs)
    write_data-AllGo null = open_net.write_all_goes (codes "$-1\r\n")

    write_elements-AllGo : (fs : Frames) → AllGo (write_elements net fs)
    write_elements-AllGo nil = λ s. goes refl
    write_elements-AllGo (cons x fs) =
        AllGo-seq (write_data net x) (write_elements net fs) (write_data-AllGo x)
          (write_elements-AllGo fs)

  pub write_frame-Goes : (x : Frame) (s : S) → Goes pending s (write_frame net x s)
  unfolding write_frame
  write_frame-Goes x =
      AllGo-seq (write_data net x) net.flush (write_data-AllGo x) open_net.flush_goes
