-- ===== src/Frame/Check/Steady.antt =====
-- `check` as more input arrives.
use mini_redis.Prelude.{
  ℕ, zero, suc, ◌+◌, ◌≡◌, ap, ◌∙◌, Bool, ◌&&◌, ◌||◌, ltb, leb, ◌==◌, if◌then◌else◌, length, arith,
  Bool-cases, inl, inr, true,
}
use mini_redis.Prelude.Int.{ℤ, pos, negsuc, pos_part, leb_ℤ, ltb_ℤ, eq_ℤ}
use mini_redis.Text.{cr, lf}
use mini_redis.Config.{max_array_depth, array_length_limit_exclusive}
use mini_redis.Buf.{contiguous, unread}
use mini_redis.Frame.{incomplete}
use mini_redis.Frame.Reader.{Reader, raise, read_u8, skip, usize_try_from, usize_checked_add}
use mini_redis.Frame.Reader.Steady.{
  waits, starves, Steady, Steady-bind, Steady-pure, Steady-other, Steady-or_other, Steady-if,
  read_u8-Steady, skip-Steady, ahead-extended,
}
use mini_redis.Frame.Line.{get_line}
use mini_redis.Frame.Line.Steady.{get_line-Steady}
use mini_redis.Frame.Number.{get_decimal}
use mini_redis.Frame.Number.Steady.{get_decimal-Steady}
use mini_redis.Frame.Check.{
  repeat, check_elements, check_terminator, check_payload, check_bulk, check_marked,
  check_with_depth, check,
}

-- A reader that runs only if a test finds enough bytes ahead, which more of them still pass.
wanting-Steady :
    (test : ℕ → Bool)
    → ((n k : ℕ) → test n ≡ true → test (n + k) ≡ true)
    → (m : Reader (Unit {0})) → Steady m
    → Steady (λ c. if test (length (unread c)) then m c else raise incomplete c)
wanting-Steady test grows m steady more c h = elim (Bool-cases (test (length (unread c)))) [
  | inr short ↦ rw short waits
  | inl enough ↦
      rw
        (enough, ap test (ahead-extended c more h) ∙ grows (length (unread c)) (length more) enough)
        (steady more c h)
]

leb_grows : (a n k : ℕ) → leb a n ≡ true → leb a (n + k) ≡ true
leb_grows a n k h = ground arith

ltb_grows : (a n k : ℕ) → ltb a n ≡ true → ltb a (n + k) ≡ true
ltb_grows a n k h = ground arith

repeat-Steady : (n : ℕ) (child : Reader (Unit {0})) → Steady child → Steady (repeat n child)
unfolding repeat
repeat-Steady zero child steady = Steady-pure tt
repeat-Steady (suc n) child steady =
    Steady-bind child (λ _. repeat n child) steady (λ _. repeat-Steady n child steady)

check_elements-Steady :
    (child : Reader (Unit {0})) (n : ℤ) → Steady child → Steady (check_elements child n)
unfolding check_elements
check_elements-Steady child n steady =
    Steady-if (leb_ℤ (negsuc 0) n && leb_ℤ n (pos 0)) _ _ (Steady-pure tt) (
      Steady-if (leb_ℤ (pos 1) n && ltb_ℤ n (pos array_length_limit_exclusive)) _ _
        (repeat-Steady (pos_part n) child steady) (Steady-other _))

check_terminator-Steady : Steady (check_terminator contiguous)
unfolding check_terminator
check_terminator-Steady = Steady-bind (read_u8 contiguous) _ read_u8-Steady (λ first.
    Steady-if (first == cr) _ _
      (Steady-bind (read_u8 contiguous) _ read_u8-Steady
        (λ second. Steady-if (second == lf) _ _ (Steady-pure tt) (Steady-other _)))
      (Steady-other _))

check_payload-Steady : (n : ℤ) → Steady (check_payload contiguous n)
unfolding check_payload
check_payload-Steady n = Steady-bind _ _ (Steady-or_other (usize_try_from n) _) (λ size.
    Steady-bind _ _ (Steady-or_other (usize_checked_add size 2) _) (λ required.
      wanting-Steady (leb required) (leb_grows required) _ (
        Steady-bind (skip contiguous size) (λ _. check_terminator contiguous) (skip-Steady size)
          (λ _. check_terminator-Steady))))

check_bulk-Steady : (n : ℤ) → Steady (check_bulk contiguous n)
unfolding check_bulk
check_bulk-Steady n =
    Steady-if (eq_ℤ n (negsuc 0)) _ _ (Steady-pure tt)
      (Steady-if (leb_ℤ (pos 0) n) _ _ (check_payload-Steady n) (Steady-other _))

check_marked-Steady :
    (child : Reader (Unit {0})) (d b : ℕ)
    → Steady child
    → Steady (check_marked contiguous child d b)
unfolding check_marked
check_marked-Steady child d b steady =
    Steady-if (b == b'+' || b == b'-' || b == b':') _ _
      (Steady-bind (get_line contiguous) _ get_line-Steady (λ _. Steady-pure tt))
      (Steady-if (b == b'$') _ _
        (Steady-bind (get_decimal contiguous) _ get_decimal-Steady check_bulk-Steady)
        (Steady-if (b == b'*') _ _
          (Steady-if (leb max_array_depth d) _ _ (Steady-other _) (
            Steady-bind (get_decimal contiguous) _ get_decimal-Steady
              (λ n. check_elements-Steady child n steady)))
          (Steady-other _)))

check_with_depth-Steady : (f d : ℕ) → Steady (check_with_depth contiguous f d)
unfolding check_with_depth
check_with_depth-Steady zero d = λ more c h. starves
check_with_depth-Steady (suc f) d = wanting-Steady (ltb 0) (ltb_grows 0) _ (
    Steady-bind (read_u8 contiguous) _ read_u8-Steady (λ b.
      check_marked-Steady (check_with_depth contiguous f (d + 1)) d b
        (check_with_depth-Steady f (d + 1))))

pub check-Steady : Steady (check contiguous)
unfolding check
check-Steady = check_with_depth-Steady (max_array_depth + 1) 0
