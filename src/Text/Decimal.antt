-- ===== src/Text/Decimal.antt =====
-- The value of a decimal text, and the digits that `to_string` writes.
use mini_redis.Prelude.{
  ℕ, zero, suc, ◌+◌, ◌-◌, ◌*◌, ◌/◌, ◌%◌, ◌≤◌, ◌<◌, ◌≡◌, refl, ◌≢◌, Bool, true, false, inl, inr, [],
  ◌∷◌, ◌++◌, arith, ltb, ltb→lt, Bool-cases, All, All-append,
}
use mini_redis.Prelude.Int.{ℤ, pos, negsuc, sub_ℕ, i64_max, i64_min_abs, IsI64}
use mini_redis.Text.{Bytes, digits, usize_to_string, i64_to_string}

abbrev pub IsDigit : ℕ → Type 0
IsDigit b = (b'0' ≤ b) × (b ≤ b'9')

-- The number that digits spell behind `n`, with no bound.
abbrev pub value : ℕ → Bytes → ℕ
value n [] = n
value n (b ∷ s) = value (n * 10 + (b - b'0')) s

-- `n`, or -n.
abbrev pub signed : Bool → ℕ → ℤ
signed false n = pos n
signed true n = sub_ℕ 0 n

-- The greatest absolute value of an `i64` of that sign.
abbrev pub limit : Bool → ℕ
limit false = i64_max
limit true = i64_min_abs

abbrev pub sign_text : Bool → Bytes → Bytes
sign_text false s = s
sign_text true s = b'-' ∷ s

-- The text is an optional minus sign and one or more digits, and spells `z`, which fits an `i64`.
pub record Denotes (l : Bytes) (z : ℤ) : Type 0 where
  pub negative : Bool
  pub spelled : Bytes
  pub nonempty : spelled ≢ []
  pub all_digits : All IsDigit spelled
  pub text_is : l ≡ sign_text negative spelled
  pub value_is : z ≡ signed negative (value 0 spelled)
  pub fits : value 0 spelled ≤ limit negative

pub le-value : (s : Bytes) (n : ℕ) → n ≤ value n s
le-value [] n = omega arith
le-value (b ∷ s) n = omega (arith, le-value s (n * 10 + (b - b'0')))

value-append : (n b : ℕ) (s : Bytes) → value n (s ++ b ∷ []) ≡ value n s * 10 + (b - b'0')
value-append n b [] = refl
value-append n b (x ∷ s) = value-append (n * 10 + (x - b'0')) b s

value-digits : (f n : ℕ) → n < f → value 0 (digits f n) ≡ n
unfolding digits
value-digits zero n h = absurd (omega arith)
value-digits (suc f) n h =
    ground (arith, value-append 0 (b'0' + n % 10) (digits f (n / 10)), value-digits f (n / 10))

digits-IsDigit : (f n : ℕ) → All IsDigit (digits f n)
unfolding digits
digits-IsDigit zero n = tt
digits-IsDigit (suc f) n = elim (Bool-cases (ltb n 10)) [
  | inl small ↦ rw small ((omega arith, omega (arith, ltb→lt n 10 small)), tt)
  | inr more ↦ rw more (
      All-append IsDigit (digits f (n / 10)) _ (digits-IsDigit f (n / 10))
        ((omega arith, omega arith), tt))
]

append-ne-nil : (s : Bytes) (b : ℕ) → s ++ b ∷ [] ≢ []
append-ne-nil [] b = cc
append-ne-nil (x ∷ s) b = cc

digits-ne-nil : (f n : ℕ) → digits (suc f) n ≢ []
unfolding digits
digits-ne-nil f n = ground (arith, append-ne-nil (digits f (n / 10)) (b'0' + n % 10))

usize_to_string-digits :
    (n : ℕ)
    → (usize_to_string n ≢ []) × All IsDigit (usize_to_string n) × (value 0 (usize_to_string n) ≡ n)
unfolding usize_to_string
usize_to_string-digits n =
    (digits-ne-nil n n, digits-IsDigit (suc n) n, value-digits (suc n) n (omega arith))

-- `to_string` of an `i64` spells it.
pub i64_to_string-Denotes : (z : ℤ) → IsI64 z → Denotes (i64_to_string z) z
unfolding i64_to_string
i64_to_string-Denotes (pos n) h =
    let (ne, ds, v) = usize_to_string-digits n in
    record {
      negative = false;
      spelled = usize_to_string n;
      nonempty = ne;
      all_digits = ds;
      text_is = refl;
      value_is = rw v;
      fits = omega arith;
    }
i64_to_string-Denotes (negsuc n) h =
    let (ne, ds, v) = usize_to_string-digits (suc n) in
    record {
      negative = true;
      spelled = usize_to_string (suc n);
      nonempty = ne;
      all_digits = ds;
      text_is = refl;
      value_is = rw v (ground arith);
      fits = omega arith;
    }
