-- ===== src/Frame/Grammar/Accept.antt =====
-- `check_with_depth` of src/frame.rs on a frame that the grammar spells.
use mini_redis.Prelude.{
  ℕ, zero, suc, ◌+◌, ◌≤◌, ◌<◌, ◌≡◌, refl, sym, ap, ◌∙◌, subst, ◌⊎◌, false, inl, inr, [], ◌∷◌, ◌++◌,
  append-nil, arith, ltb, leb, lt→ltb, length,
}
use mini_redis.Prelude.Int.{ℤ, pos, negsuc}
use mini_redis.Text.{Bytes}
use mini_redis.Text.Decimal.{Denotes}
use mini_redis.Frame.Line.Exact.{IsLine}
use mini_redis.Frame.Number.Exact.{Denotes-IsLine}
use mini_redis.Config.{max_array_depth, array_length_limit_exclusive}
use mini_redis.Buf.{contiguous}
use mini_redis.Frame.{Frame, Frames, frame_count}
use mini_redis.Frame.Reader.{Reader, pure}
use mini_redis.Frame.Check.{repeat, check_bulk, check_elements, check_marked, check_with_depth}
use mini_redis.Frame.Grammar.{
  line, Spells, SpellsAll, spells_simple, spells_error, spells_integer, spells_bulk,
  spells_null_bulk, spells_null_array, spells_array, spells_nil, spells_cons,
}
use mini_redis.Frame.Grammar.Reads.{
  Reads, Reads-text, Reads-pure, Reads-bind, Reads-last, read_u8-Reads, get_line-Reads,
  get_decimal-Reads, check_bulk-Reads,
}

pub check_elements-repeat :
    (child : Reader (Unit {0})) (n : ℕ)
    → n < array_length_limit_exclusive
    → check_elements child (pos n) ≡ repeat n child
unfolding check_elements repeat
check_elements-repeat child zero h = refl
check_elements-repeat child (suc n) h = ground arith

-- A marker and what its branch reads.
check_with_depth-Reads :
    (f d b : ℕ) {t : Bytes}
    → Reads (check_marked contiguous (check_with_depth contiguous f (d + 1)) d b) t tt
    → Reads (check_with_depth contiguous (suc f) d) (b ∷ t) tt
unfolding check_with_depth
check_with_depth-Reads f d b {t} r = record {
  at = λ c rest fits e.
      rw (ap (λ (s : Bytes). ltb 0 (length s)) e ∙ lt→ltb 0 (length (b ∷ t ++ rest)) (omega arith))
        ((Reads-bind (check_marked contiguous (check_with_depth contiguous f (d + 1)) d)
            (read_u8-Reads b) r).at
          c rest fits e);
}

module _ (child : Reader (Unit {0})) (d : ℕ) where
  check_line :
      (b : ℕ) (l : Bytes)
      → (b ≡ b'+') ⊎ (b ≡ b'-') ⊎ (b ≡ b':')
      → IsLine l
      → Reads (check_marked contiguous child d b) (line l) tt
  unfolding check_marked
  check_line b l (inl e) h = rw e (Reads-last (λ _. pure tt) (get_line-Reads l h) (Reads-pure tt))
  check_line b l (inr (inl e)) h =
      rw e (Reads-last (λ _. pure tt) (get_line-Reads l h) (Reads-pure tt))
  check_line b l (inr (inr e)) h =
      rw e (Reads-last (λ _. pure tt) (get_line-Reads l h) (Reads-pure tt))

  check_length :
      (l : Bytes) (n : ℤ) {t : Bytes}
      → Denotes l n
      → Reads (check_bulk contiguous n) t tt
      → Reads (check_marked contiguous child d b'$') (line l ++ t) tt
  unfolding check_marked
  check_length l n den r = Reads-bind (check_bulk contiguous) (get_decimal-Reads l n den) r

  check_count :
      (l : Bytes) (n : ℤ) {t : Bytes}
      → d < max_array_depth
      → Denotes l n
      → Reads (check_elements child n) t tt
      → Reads (check_marked contiguous child d b'*') (line l ++ t) tt
  unfolding check_marked
  check_count l n {t} shallow den r =
      let open_depth : leb max_array_depth d ≡ false = ground arith in
      rw open_depth (Reads-bind (check_elements child) (get_decimal-Reads l n den) r)

check_bulk_null : Reads (check_bulk contiguous (negsuc 0)) [] tt
unfolding check_bulk
check_bulk_null = Reads-pure tt

check_elements_null : (child : Reader (Unit {0})) → Reads (check_elements child (negsuc 0)) [] tt
unfolding check_elements
check_elements_null child = Reads-pure tt

repeat_zero : (child : Reader (Unit {0})) → Reads (repeat 0 child) [] tt
unfolding repeat
repeat_zero child = Reads-pure tt

repeat-suc :
    (child : Reader (Unit {0})) (n : ℕ) {s t : Bytes}
    → Reads child s tt
    → Reads (repeat n child) t tt
    → Reads (repeat (suc n) child) (s ++ t) tt
unfolding repeat
repeat-suc child n r q = Reads-bind (λ _. repeat n child) r q

mutual
  pub check-Spells :
      (f d : ℕ) {x : Frame} {t : Bytes}
      → Spells d x t
      → d ≤ max_array_depth
      → max_array_depth < f + d
      → Reads (check_with_depth contiguous f d) t tt
  check-Spells zero d s h k = absurd (omega arith)
  check-Spells (suc f) d (spells_simple {s} l u e) h k =
      Reads-text (sym e) (check_with_depth-Reads f d b'+' (check_line _ d b'+' s (inl refl) l))
  check-Spells (suc f) d (spells_error {s} l u e) h k =
      Reads-text (sym e)
        (check_with_depth-Reads f d b'-' (check_line _ d b'-' s (inr (inl refl)) l))
  check-Spells (suc f) d (spells_integer l den e) h k = Reads-text (sym e) (
      check_with_depth-Reads f d b':' (check_line _ d b':' l (inr (inr refl)) (Denotes-IsLine den)))
  check-Spells (suc f) d (spells_bulk {s} l den small e) h k =
      Reads-text (sym e)
        (check_with_depth-Reads f d b'$' (check_length _ d l _ den (check_bulk-Reads s small)))
  check-Spells (suc f) d (spells_null_bulk l den e) h k =
      Reads-text (ap (◌∷◌ b'$') (append-nil (line l)) ∙ sym e)
        (check_with_depth-Reads f d b'$' (check_length _ d l _ den check_bulk_null))
  check-Spells (suc f) d (spells_null_array l den shallow e) h k =
      Reads-text (ap (◌∷◌ b'*') (append-nil (line l)) ∙ sym e)
        (check_with_depth-Reads f d b'*' (check_count _ d l _ shallow den (check_elements_null _)))
  check-Spells (suc f) d (spells_array {fs} l u den shallow few all e) h k = Reads-text (sym e) (
      check_with_depth-Reads f d b'*' (
        check_count _ d l _ shallow den (
          subst (λ p. Reads p u tt) (sym (check_elements-repeat _ (frame_count fs) few))
            (repeat-SpellsAll f (d + 1) all (omega arith) (omega arith)))))

  repeat-SpellsAll :
      (f d : ℕ) {fs : Frames} {t : Bytes}
      → SpellsAll d fs t
      → d ≤ max_array_depth
      → max_array_depth < f + d
      → Reads (repeat (frame_count fs) (check_with_depth contiguous f d)) t tt
  repeat-SpellsAll f d (spells_nil e) h k = Reads-text (sym e) (repeat_zero _)
  repeat-SpellsAll f d (spells_cons {fs} u v s all e) h k =
      Reads-text (sym e) (repeat-suc _ _ (check-Spells f d s h k) (repeat-SpellsAll f d all h k))
