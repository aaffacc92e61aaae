-- ===== src/Frame/Grammar/Decode.antt =====
-- `parse_data` of src/frame.rs on a frame that the grammar spells.
use mini_redis.Prelude.{
  ℕ, zero, suc, ◌+◌, ◌≤◌, ◌<◌, ◌≡◌, sym, ap, ◌∙◌, true, some, [], ◌∷◌, ◌++◌, append-nil, arith,
}
use mini_redis.Prelude.Int.{ℤ, pos, negsuc}
use mini_redis.Text.{Bytes, from_utf8, is_utf8}
use mini_redis.Text.Decimal.{Denotes}
use mini_redis.Config.{max_array_depth, array_length_limit_exclusive}
use mini_redis.Buf.{Cursor, contiguous}
use mini_redis.Frame.{Frame, Frames, simple, error, integer, array, null, nil, cons, frame_count}
use mini_redis.Frame.Reader.{Reader, pure, continue}
use mini_redis.Frame.Line.Exact.{IsLine}
use mini_redis.Frame.Parse.{
  collect, parse_string, parse_bulk, parse_elements, parse_marked, parse_data,
}
use mini_redis.Frame.Grammar.{
  line, Spells, SpellsAll, spells_simple, spells_error, spells_integer, spells_bulk,
  spells_null_bulk, spells_null_array, spells_array, spells_nil, spells_cons,
}
use mini_redis.Frame.Grammar.Reads.{
  Reads, Reads-text, Reads-pure, Reads-bind, Reads-last, read_u8-Reads, get_line-Reads,
  get_decimal-Reads, parse_bulk-Reads,
}

parse_data-Reads :
    (f b : ℕ) {t : Bytes} {x : Frame}
    → Reads (parse_marked contiguous (parse_data contiguous f) b) t x
    → Reads (parse_data contiguous (suc f)) (b ∷ t) x
unfolding parse_data
parse_data-Reads f b r =
    Reads-bind (parse_marked contiguous (parse_data contiguous f)) (read_u8-Reads b) r

from_utf8-valid : (s : Bytes) → is_utf8 s ≡ true → from_utf8 s ≡ some s
unfolding from_utf8
from_utf8-valid s h = rw h

-- The rest of `parse_string` behind a line that is UTF-8.
parse_simple-Reads :
    (s : Bytes)
    → IsLine s
    → is_utf8 s ≡ true
    → Reads (parse_string contiguous b'+') (line s) (simple s)
unfolding parse_string
parse_simple-Reads s l u =
    Reads-last _ (get_line-Reads s l) (rw (from_utf8-valid s u) (Reads-pure (simple s)))

parse_error-Reads :
    (s : Bytes)
    → IsLine s
    → is_utf8 s ≡ true
    → Reads (parse_string contiguous b'-') (line s) (error s)
unfolding parse_string
parse_error-Reads s l u =
    Reads-last _ (get_line-Reads s l) (rw (from_utf8-valid s u) (Reads-pure (error s)))

module _ (child : Reader Frame) where
  parse_number :
      (l : Bytes) (z : ℤ)
      → Denotes l z
      → Reads (parse_marked contiguous child b':') (line l) (integer z)
  unfolding parse_marked
  parse_number l z den =
      Reads-last (λ n. pure (integer n)) (get_decimal-Reads l z den) (Reads-pure (integer z))

  parse_length :
      (l : Bytes) (n : ℤ) {t : Bytes} {x : Frame}
      → Denotes l n
      → Reads (parse_bulk contiguous n) t x
      → Reads (parse_marked contiguous child b'$') (line l ++ t) x
  unfolding parse_marked
  parse_length l n den r = Reads-bind (parse_bulk contiguous) (get_decimal-Reads l n den) r

  parse_count :
      (l : Bytes) (n : ℤ) {t : Bytes} {x : Frame}
      → Denotes l n
      → Reads (parse_elements child n) t x
      → Reads (parse_marked contiguous child b'*') (line l ++ t) x
  unfolding parse_marked
  parse_count l n den r = Reads-bind (parse_elements child) (get_decimal-Reads l n den) r

  parse_marked_simple :
      {t : Bytes} {x : Frame}
      → Reads (parse_string contiguous b'+') t x
      → Reads (parse_marked contiguous child b'+') t x
  unfolding parse_marked
  parse_marked_simple r = r

  parse_marked_error :
      {t : Bytes} {x : Frame}
      → Reads (parse_string contiguous b'-') t x
      → Reads (parse_marked contiguous child b'-') t x
  unfolding parse_marked
  parse_marked_error r = r

  parse_elements_null : Reads (parse_elements child (negsuc 0)) [] null
  unfolding parse_elements
  parse_elements_null = Reads-pure null

  -- A count that was checked converts to `usize`, and the elements follow.
  parse_elements-Reads :
      (fs : Frames) {t : Bytes}
      → frame_count fs < array_length_limit_exclusive
      → Reads (collect (frame_count fs) child) t fs
      → Reads (parse_elements child (pos (frame_count fs))) t (array fs)
  parse_elements-Reads fs few r = record {
    at = λ c rest fits e.
        parse_elements_lem fs few c
        ∙ ap (λ o. continue o (λ gs. pure (array gs))) (r.at c rest fits e);
  }
    where
      parse_elements_lem :
          (gs : Frames)
          → frame_count gs < array_length_limit_exclusive
          → (c : Cursor)
          → parse_elements child (pos (frame_count gs)) c
            ≡ continue (collect (frame_count gs) child c) (λ hs. pure (array hs))
      parse_elements_lem gs h c = unfold parse_elements in ground arith

  collect_zero : Reads (collect 0 child) [] nil
  unfolding collect
  collect_zero = Reads-pure nil

  collect-suc :
      (n : ℕ) {x : Frame} {fs : Frames} {s t : Bytes}
      → Reads child s x
      → Reads (collect n child) t fs
      → Reads (collect (suc n) child) (s ++ t) (cons x fs)
  unfolding collect
  collect-suc n {x} {fs} r q =
      Reads-bind _ r (Reads-last (λ gs. pure (cons x gs)) q (Reads-pure (cons x fs)))

parse_bulk_null : Reads (parse_bulk contiguous (negsuc 0)) [] null
unfolding parse_bulk
parse_bulk_null = Reads-pure null

mutual
  pub parse_data-Spells :
      (f d : ℕ) {x : Frame} {t : Bytes}
      → Spells d x t
      → d ≤ max_array_depth
      → max_array_depth < f + d
      → Reads (parse_data contiguous f) t x
  parse_data-Spells zero d s h k = absurd (omega arith)
  parse_data-Spells (suc f) d (spells_simple {s} l u e) h k =
      Reads-text (sym e)
        (parse_data-Reads f b'+' (parse_marked_simple _ (parse_simple-Reads s l u)))
  parse_data-Spells (suc f) d (spells_error {s} l u e) h k =
      Reads-text (sym e) (parse_data-Reads f b'-' (parse_marked_error _ (parse_error-Reads s l u)))
  parse_data-Spells (suc f) d (spells_integer l den e) h k =
      Reads-text (sym e) (parse_data-Reads f b':' (parse_number _ l _ den))
  parse_data-Spells (suc f) d (spells_bulk {s} l den small e) h k =
      Reads-text (sym e)
        (parse_data-Reads f b'$' (parse_length _ l _ den (parse_bulk-Reads s small)))
  parse_data-Spells (suc f) d (spells_null_bulk l den e) h k =
      Reads-text (ap (◌∷◌ b'$') (append-nil (line l)) ∙ sym e)
        (parse_data-Reads f b'$' (parse_length _ l _ den parse_bulk_null))
  parse_data-Spells (suc f) d (spells_null_array l den shallow e) h k =
      Reads-text (ap (◌∷◌ b'*') (append-nil (line l)) ∙ sym e)
        (parse_data-Reads f b'*' (parse_count _ l _ den (parse_elements_null _)))
  parse_data-Spells (suc f) d (spells_array {fs} l u den shallow few all e) h k =
      Reads-text (sym e) (
        parse_data-Reads f b'*' (
          parse_count _ l _ den (
            parse_elements-Reads _ fs few
              (collect-SpellsAll f (d + 1) all (omega arith) (omega arith)))))

  collect-SpellsAll :
      (f d : ℕ) {fs : Frames} {t : Bytes}
      → SpellsAll d fs t
      → d ≤ max_array_depth
      → max_array_depth < f + d
      → Reads (collect (frame_count fs) (parse_data contiguous f)) t fs
  collect-SpellsAll f d (spells_nil e) h k = Reads-text (sym e) (collect_zero _)
  collect-SpellsAll f d (spells_cons {fs} u v s all e) h k =
      Reads-text (sym e) (
        collect-suc _ (frame_count fs) (parse_data-Spells f d s h k)
          (collect-SpellsAll f d all h k))
