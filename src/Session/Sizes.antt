-- ===== src/Session/Sizes.antt =====
-- How long the requests of src/requester.rs are, and that a connection carries them.
use mini_redis.Prelude.{◌≤◌, ◌++◌, length, length-append, arith}
use mini_redis.Text.{Bytes, codes, crlf, usize_to_string}
use mini_redis.Config.{max_buffered_bytes}
use mini_redis.Frame.{Frame, Frames, bulk, array, nil, cons, frame_count}
use mini_redis.Frame.Grammar.{line}
use mini_redis.Frame.Encode.{
  encode, encode_all, IsSendable, sendable_bulk, sendable_array, sendable_nil, sendable_cons,
}
use mini_redis.Requester.{get_frame, set_frame}

-- What a request holds is no longer than its encoding.
length-part : (p s q : Bytes) → length s ≤ length (p ++ (s ++ q))
length-part p s q = omega (arith, length-append p (s ++ q), length-append s q)

pub length-encode_bulk : (s : Bytes) → length s ≤ length (encode (bulk s))
unfolding encode
length-encode_bulk s =
    let inner = length-part (line (usize_to_string (length s))) s crlf in omega (arith, inner)

length-encode_array : (fs : Frames) → length (encode_all fs) ≤ length (encode (array fs))
unfolding encode
length-encode_array fs =
    omega (arith, length-append (line (usize_to_string (frame_count fs))) (encode_all fs))

length-encode_all_head :
    (x : Frame) (fs : Frames) → length (encode x) ≤ length (encode_all (cons x fs))
unfolding encode_all
length-encode_all_head x fs = omega (arith, length-append (encode x) (encode_all fs))

length-encode_all_tail :
    (x : Frame) (fs : Frames) → length (encode_all fs) ≤ length (encode_all (cons x fs))
unfolding encode_all
length-encode_all_tail x fs = omega (arith, length-append (encode x) (encode_all fs))

pub get_frame-IsSendable :
    (key : Bytes)
    → length (encode (get_frame key)) ≤ max_buffered_bytes
    → IsSendable 0 (get_frame key)
get_frame-IsSendable key small = sendable_array (omega arith) (omega arith) (
    sendable_cons (sendable_bulk (omega arith)) (
      sendable_cons
        (sendable_bulk (
          omega (
            arith,
            length-encode_bulk key,
            length-encode_all_head (bulk key) nil,
            length-encode_all_tail (bulk (codes "GET")) (cons (bulk key) nil),
            length-encode_array (cons (bulk (codes "GET")) (cons (bulk key) nil)),
          )))
        sendable_nil))

pub set_frame-IsSendable :
    (key value : Bytes)
    → length (encode (set_frame key value)) ≤ max_buffered_bytes
    → IsSendable 0 (set_frame key value)
set_frame-IsSendable key value small =
    let tail : Frames = cons (bulk value) nil in
    let outer = length-encode_array (cons (bulk (codes "SET")) (cons (bulk key) tail)) in
    let inner = length-encode_all_tail (bulk (codes "SET")) (cons (bulk key) tail) in
    sendable_array (omega arith) (omega arith) (
      sendable_cons (sendable_bulk (omega arith)) (
        sendable_cons
          (sendable_bulk (
            omega (
              arith,
              outer,
              inner,
              length-encode_bulk key,
              length-encode_all_head (bulk key) tail,
            )))
          (sendable_cons
            (sendable_bulk (
              omega (
                arith,
                outer,
                inner,
                length-encode_all_tail (bulk key) tail,
                length-encode_all_head (bulk value) nil,
                length-encode_bulk value,
              )))
            sendable_nil)))
