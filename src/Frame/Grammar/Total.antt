-- ===== src/Frame/Grammar/Total.antt =====
-- `check_with_depth` of src/frame.rs on any input.
use native.Mathlib.Decide.{dec_lt}
use mini_redis.Prelude.{
  ℕ, zero, suc, ◌+◌, ◌≤◌, ◌<◌, ◌≡◌, refl, sym, subst, ◌||◌, ◌&&◌, [], ◌∷◌, ◌++◌, arith, leb, le→leb,
  ◌==◌,
}
use mini_redis.Prelude.Int.{ℤ, pos, negsuc, pos_part, leb_ℤ, ltb_ℤ}
use mini_redis.Text.{Bytes}
use mini_redis.Config.{max_array_depth, array_length_limit_exclusive}
use mini_redis.Buf.{Cursor, contiguous, unread, moved}
use mini_redis.Frame.Reader.{Outcome, Reader}
use mini_redis.Frame.Reader.Ensures.{
  Ensures, returns, fails, Ensures-branch, Ensures-bind, Ensures-map,
}
use mini_redis.Frame.Line.{get_line}
use mini_redis.Frame.Line.Exact.{get_line-Ensures}
use mini_redis.Frame.Number.{get_decimal}
use mini_redis.Frame.Number.Exact.{get_decimal-Ensures}
use mini_redis.Frame.Check.{repeat, check_bulk, check_elements, check_marked, check_with_depth}
use mini_redis.Frame.Check.Payload.{Bulk, no_payload, payload_of, check_bulk-Ensures}
use mini_redis.Frame.Grammar.Step.{check_with_depth-nil, check_with_depth-cons}
use mini_redis.Frame.Grammar.Took.{
  Took, Took-nil, Took-trans, Took-ahead, ReadsLine-Took, Payload-Took,
}

abbrev pub TookSome : Cursor → Cursor → Type 0
TookSome c c' = (t : Bytes) × Took t c c'

-- A run from `c` that ends, and only moves the cursor on.
abbrev pub Moves {ℓ} : {A : Type ℓ} → Cursor → Outcome A → Type ℓ
Moves c = Ensures (λ _ c'. TookSome c c') (λ _ _. Unit {0})

TookSome-trans : {a b c : Cursor} → TookSome a b → TookSome b c → TookSome a c
TookSome-trans (s, p) (t, q) = (s ++ t, Took-trans p q)

Moves-from {ℓ} : {A : Type ℓ} {a b : Cursor} {r : Outcome A} → TookSome a b → Moves b r → Moves a r
Moves-from p m = Ensures-map m (λ _ _ q. TookSome-trans p q) (λ _ _ _. tt)

get_line-Moves : (c : Cursor) → Moves c (get_line contiguous c)
get_line-Moves c = Ensures-map (get_line-Ensures c) (λ l c' r. (_, ReadsLine-Took r)) (λ _ _ _. tt)

get_decimal-Moves : (c : Cursor) → Moves c (get_decimal contiguous c)
get_decimal-Moves c =
    Ensures-map (get_decimal-Ensures c) (λ z c' r. (_, ReadsLine-Took r.reads)) (λ _ _ _. tt)

check_bulk-Moves : (n : ℤ) (c : Cursor) → Moves c (check_bulk contiguous n c)
check_bulk-Moves n c = Ensures-map (check_bulk-Ensures n c) (λ _ c' b. go c' b) (λ _ _ _. tt)
  where
    go : (c' : Cursor) → Bulk n c c' → TookSome c c'
    go c' (no_payload _ same) = ([], subst (Took [] c) (sym same) (Took-nil c))
    go c' (payload_of k _ _ p) = (_, Payload-Took p)

module _ (child : Reader (Unit {0})) (moves : (c : Cursor) → Moves c (child c)) where
  repeat-Moves : (n : ℕ) (c : Cursor) → Moves c (repeat n child c)
  unfolding repeat
  repeat-Moves zero c = returns ([], Took-nil c)
  repeat-Moves (suc n) c =
      Ensures-bind (moves c) (λ _ c₁ _ p. Moves-from p (repeat-Moves n c₁)) (λ _ _ _. tt)

  check_elements-Moves : (n : ℤ) (c : Cursor) → Moves c (check_elements child n c)
  unfolding check_elements
  check_elements-Moves n c =
      Ensures-branch (leb_ℤ (negsuc 0) n && leb_ℤ n (pos 0)) _ _ c (λ _. returns ([], Took-nil c))
        (λ _.
          Ensures-branch (leb_ℤ (pos 1) n && ltb_ℤ n (pos array_length_limit_exclusive)) _ _ c
            (λ _. repeat-Moves (pos_part n) c) (λ _. fails tt))

module _ (child : Reader (Unit {0})) (d : ℕ)
    (moves : d < max_array_depth → (c : Cursor) → Moves c (child c)) where
  check_array-Moves :
      (c : Cursor) → d < max_array_depth → Moves c (check_marked contiguous child d b'*' c)
  unfolding check_marked
  check_array-Moves c shallow =
      Ensures-branch (leb max_array_depth d) _ _ c (λ _. fails tt)
        (λ _.
          Ensures-bind (get_decimal-Moves c)
            (λ n c₁ _ p. Moves-from p (check_elements-Moves child (moves shallow) n c₁))
            (λ _ _ _. tt))

  check_deep-Moves :
      (c : Cursor) → max_array_depth ≤ d → Moves c (check_marked contiguous child d b'*' c)
  unfolding check_marked
  check_deep-Moves c deep = rw (le→leb max_array_depth d deep) (fails tt)

  check_star-Moves : (c : Cursor) → Moves c (check_marked contiguous child d b'*' c)
  check_star-Moves c = elim (dec_lt d max_array_depth) [
    | yes shallow ↦ check_array-Moves c shallow
    | no deep ↦ check_deep-Moves c (omega arith)
  ]

  check_marked-Moves : (b : ℕ) (c : Cursor) → Moves c (check_marked contiguous child d b c)
  unfolding check_marked
  check_marked-Moves b c =
      Ensures-branch (b == b'+' || b == b'-' || b == b':') _ _ c
        (λ _. Ensures-bind (get_line-Moves c) (λ _ _ _ p. returns p) (λ _ _ _. tt))
        (λ _.
          Ensures-branch (b == b'$') _ _ c
            (λ _.
              Ensures-bind (get_decimal-Moves c) (λ n c₁ _ p. Moves-from p (check_bulk-Moves n c₁))
                (λ _ _ _. tt))
            (λ _. Ensures-branch (b == b'*') _ _ c (λ _. check_star-Moves c) (λ _. fails tt)))

-- With fuel for every level that the limit allows, the check neither panics nor runs dry.
pub check_with_depth-Moves :
    (f d : ℕ) (c : Cursor)
    → d ≤ max_array_depth
    → max_array_depth < f + d
    → Moves c (check_with_depth contiguous f d c)
check_with_depth-Moves zero d c h k = absurd (omega arith)
check_with_depth-Moves (suc f) d c h k = at_front (unread c) refl (
    check_marked-Moves (check_with_depth contiguous f (d + 1)) d
      (λ shallow c₁. check_with_depth-Moves f (d + 1) c₁ (omega arith) (omega arith)))
  where
    at_front :
        (s : Bytes)
        → unread c ≡ s
        → ((b : ℕ) (c₁ : Cursor)
            → Moves c₁ (check_marked contiguous (check_with_depth contiguous f (d + 1)) d b c₁))
        → Moves c (check_with_depth contiguous (suc f) d c)
    at_front [] e all = rw (check_with_depth-nil f d c e) (fails tt)
    at_front (b ∷ rest) e all =
        rw (check_with_depth-cons f d c b rest e)
          (Moves-from (b ∷ [], Took-ahead c (b ∷ []) rest e) (all b (moved c 1)))
