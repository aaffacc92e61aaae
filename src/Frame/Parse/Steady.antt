-- ===== src/Frame/Parse/Steady.antt =====
-- `parse` as more input arrives.
use mini_redis.Prelude.{ℕ, zero, suc, ◌+◌, ◌≡◌, ap, ◌||◌, ◌==◌, length, arith}
use mini_redis.Prelude.Int.{ℤ, negsuc, pos_part, eq_ℤ}
use mini_redis.Text.{from_utf8}
use mini_redis.Config.{max_array_depth}
use mini_redis.Buf.{Cursor, contiguous}
use mini_redis.Frame.{Frame, simple, error, integer, bulk, array, null, nil, cons}
use mini_redis.Frame.Reader.{Reader, pure, read_u8, skip, usize_try_from, ok}
use mini_redis.Frame.Reader.Steady.{
  starves, Steady, Extends-continue, Steady-bind, Steady-pure, Steady-other, Steady-or_other,
  Steady-if, read_u8-Steady, skip-Steady,
}
use mini_redis.Frame.Line.{get_line}
use mini_redis.Frame.Line.Steady.{get_line-Steady, chunk-Steady}
use mini_redis.Frame.Number.{get_decimal}
use mini_redis.Frame.Number.Steady.{get_decimal-Steady}
use mini_redis.Frame.Reader.Ensures.{Ensures-ok}
use mini_redis.Frame.Grammar.Total.{TookSome, check_with_depth-Moves}
use mini_redis.Frame.Check.{check}
use mini_redis.Frame.Check.Steady.{check-Steady}
use mini_redis.Frame.Parse.{
  collect, parse_elements, parse_string, parse_bulk, parse_marked, parse_data, parse,
}

collect-Steady : (n : ℕ) (child : Reader Frame) → Steady child → Steady (collect n child)
unfolding collect
collect-Steady zero child steady = Steady-pure nil
collect-Steady (suc n) child steady = Steady-bind child _ steady (λ x.
    Steady-bind (collect n child) _ (collect-Steady n child steady) (λ fs. Steady-pure (cons x fs)))

parse_elements-Steady :
    (child : Reader Frame) (n : ℤ) → Steady child → Steady (parse_elements child n)
unfolding parse_elements
parse_elements-Steady child n steady = Steady-if (eq_ℤ n (negsuc 0)) _ _ (Steady-pure null) (
    Steady-bind _ _ (Steady-or_other (usize_try_from n) _) (λ _.
      Steady-bind (collect (pos_part n) child) _ (collect-Steady (pos_part n) child steady)
        (λ fs. Steady-pure (array fs))))

parse_string-Steady : (b : ℕ) → Steady (parse_string contiguous b)
unfolding parse_string
parse_string-Steady b = Steady-bind (get_line contiguous) _ get_line-Steady (λ content.
    Steady-bind _ _ (Steady-or_other (from_utf8 content) _)
      (λ s. Steady-if (b == b'+') _ _ (Steady-pure (simple s)) (Steady-pure (error s))))

parse_bulk-Steady : (n : ℤ) → Steady (parse_bulk contiguous n)
unfolding parse_bulk
parse_bulk-Steady n = Steady-if (eq_ℤ n (negsuc 0)) _ _ (Steady-pure null) (
    Steady-bind _ _ (Steady-or_other (usize_try_from n) _) (λ size.
      Steady-bind _ _ (chunk-Steady size) (λ bytes.
        Steady-bind (skip contiguous (size + 2)) (λ _. pure (bulk bytes)) (skip-Steady (size + 2))
          (λ _. Steady-pure (bulk bytes)))))

parse_marked-Steady :
    (child : Reader Frame) (b : ℕ) → Steady child → Steady (parse_marked contiguous child b)
unfolding parse_marked
parse_marked-Steady child b steady =
    Steady-if (b == b'+' || b == b'-') _ _ (parse_string-Steady b) (
      Steady-if (b == b':') _ _
        (Steady-bind (get_decimal contiguous) _ get_decimal-Steady (λ n. Steady-pure (integer n)))
        (Steady-if (b == b'$') _ _
          (Steady-bind (get_decimal contiguous) _ get_decimal-Steady parse_bulk-Steady)
          (Steady-if (b == b'*') _ _
            (Steady-bind (get_decimal contiguous) _ get_decimal-Steady
              (λ n. parse_elements-Steady child n steady))
            (Steady-other _))))

parse_data-Steady : (f : ℕ) → Steady (parse_data contiguous f)
unfolding parse_data
parse_data-Steady zero = λ more c h. starves
parse_data-Steady (suc f) =
    Steady-bind (read_u8 contiguous) _ read_u8-Steady
      (λ b. parse_marked-Steady (parse_data contiguous f) b (parse_data-Steady f))

check-contents : (c c₁ : Cursor) → check contiguous c ≡ ok tt c₁ → c₁.contents ≡ c.contents
unfolding check
check-contents c c₁ e =
    let (t, took) : TookSome c c₁ =
      Ensures-ok (check_with_depth-Moves (max_array_depth + 1) 0 c (omega arith) (omega arith)) e in
    ap (λ x. x.contents) took.moves

pub parse-Steady : Steady (parse contiguous)
unfolding parse
parse-Steady more c h = Extends-continue (check-Steady more c h) (λ _ c₁ e h₁.
    parse_data-Steady (max_array_depth + 1) more (record c₁ { position = c.position })
      (omega (arith, ap length (check-contents c c₁ e))))
