-- ===== src/Connection/Examples.antt =====
-- The theorems on connections over the network in memory.
use mini_redis.Prelude.{
  sym, ◌∙◌, append-nil, ◌+◌, ◌-◌, ℕ, ◌≡◌, refl, ◌≤◌, some, [], ◌∷◌, ◌++◌, length, arith,
}
use mini_redis.Config.{max_buffered_bytes, usize_max}
use mini_redis.Text.{codes, usize_to_string}
use mini_redis.Buf.{contiguous, contiguous-IsBuf}
use mini_redis.Frame.{simple, bulk}
use mini_redis.Frame.Encode.{encode, IsSendable, sendable_bulk, encode-Spells}
use mini_redis.Connection.{
  Connection, returned, failed, message, new_connection, read_frame, write_frame,
}
use mini_redis.Connection.Memory.{Memory, memory, memory-IsStream, memory-IsReliable, arriving}
use mini_redis.Connection.Write.{Delivers, write_frame_lem}
use mini_redis.Connection.Complete.{read_frame_complete}
use mini_redis.Connection.Overflow.{read_frame_overflow}
use mini_redis.Connection.Truncated.{read_frame_truncated}
use mini_redis.Connection.Letters.{
  letters, encoded, letters-IsSendable, encode-letters, encoded_fills, encode_exceeds, encode_fits,
}
use mini_redis.Connection.Rounds.{Fetches, read_frame_lem}

-- A bulk string in two pieces, and the start of another frame.
abbrev pieces : Connection Memory
pieces = new_connection (arriving (codes "$3\r\nf" ∷ codes "oo\r\n:4" ∷ []))

read_frame_lem_example : Fetches memory memory-IsStream pieces (read_frame contiguous memory pieces)
read_frame_lem_example =
    read_frame_lem contiguous memory contiguous-IsBuf memory-IsStream pieces (omega arith)

write_frame_lem_example :
    Delivers memory memory-IsStream
      (arriving [])
      (encode (bulk (codes "foo")))
      (write_frame memory (bulk (codes "foo")) (arriving []))
write_frame_lem_example = write_frame_lem memory memory-IsStream (bulk (codes "foo")) (arriving [])

foo-IsSendable : IsSendable 0 (bulk (codes "foo"))
foo-IsSendable = sendable_bulk (omega arith)

foo_small : length (encode (bulk (codes "foo"))) ≤ max_buffered_bytes
unfolding encode usize_to_string
foo_small = omega arith

foo_ahead :
    [] ++ memory-IsReliable.pending pieces.stream ≡ encode (bulk (codes "foo")) ++ codes ":4"
unfolding memory-IsReliable encode usize_to_string
foo_ahead = refl

read_frame_complete_example :
    (c : Connection Memory) × (read_frame contiguous memory pieces
      ≡ returned (some (bulk (codes "foo"))) c)
    × (c.buffer ++ memory-IsReliable.pending c.stream ≡ codes ":4")
read_frame_complete_example =
    read_frame_complete contiguous memory contiguous-IsBuf memory-IsStream memory-IsReliable pieces
      (bulk (codes "foo")) (encode (bulk (codes "foo"))) (codes ":4") (omega arith) foo_small
      (encode-Spells foo-IsSendable) foo_ahead

abbrev over : ℕ
over = max_buffered_bytes - 2

over_is : over + 3 ≡ max_buffered_bytes + 1
over_is = omega arith

abbrev flooded : Connection Memory
flooded = new_connection (arriving (encoded over ∷ []))

flooded_ahead : [] ++ memory-IsReliable.pending flooded.stream ≡ encoded over ++ []
unfolding memory-IsReliable
flooded_ahead = refl

over_cut : encode (simple (letters over)) ≡ encoded over ++ []
over_cut = encode-letters over ∙ sym (append-nil (encoded over))

read_frame_overflow_example :
    (c : Connection Memory) × (read_frame contiguous memory flooded
      ≡ failed (message "Frame cannot fit within the buffer limit") c)
    × (length c.buffer ≡ max_buffered_bytes)
read_frame_overflow_example =
    read_frame_overflow contiguous memory contiguous-IsBuf memory-IsStream memory-IsReliable flooded
      (simple (letters over)) (encode (simple (letters over))) (encoded over) [] [] (omega arith)
      (encode-Spells (letters-IsSendable over)) over_cut (encoded_fills over over_is)
      (encode_exceeds over over_is) (encode_fits over over_is) flooded_ahead

-- A bulk string that breaks off.
abbrev broken : Connection Memory
broken = new_connection (arriving (codes "$3\r\nf" ∷ codes "o" ∷ []))

broken_cut : encode (bulk (codes "foo")) ≡ codes "$3\r\nfo" ++ codes "o\r\n"
unfolding encode usize_to_string
broken_cut = refl

foo_fits : length (encode (bulk (codes "foo"))) ≤ usize_max
unfolding encode usize_to_string
foo_fits = omega arith

broken_ahead : [] ++ memory-IsReliable.pending broken.stream ≡ codes "$3\r\nfo"
unfolding memory-IsReliable
broken_ahead = refl

read_frame_truncated_example :
    (c : Connection Memory) × (read_frame contiguous memory broken
      ≡ failed (message "Connection reached EOF with an incomplete frame") c)
    × (c.buffer ≡ codes "$3\r\nfo")
read_frame_truncated_example =
    read_frame_truncated contiguous memory contiguous-IsBuf memory-IsStream memory-IsReliable broken
      (bulk (codes "foo")) (encode (bulk (codes "foo"))) (codes "$3\r\nfo") (codes "o\r\n")
      (encode-Spells foo-IsSendable) broken_cut (omega arith) (omega arith) (omega arith) foo_fits
      broken_ahead
