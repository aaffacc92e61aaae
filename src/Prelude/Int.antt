-- ===== src/Prelude/Int.antt =====
-- Signed integers over the native numbers, under the library's names, and Rust's `i64`: an integer
-- of ℤ with the range checks of `checked_mul` and `checked_add` written out.
use Prim.Native.Nat.{ℕ, suc, ◌+◌, ◌-◌, ◌*◌, ◌^◌, ◌≤◌}
use mathlib.Core.Path.{◌≡◌}
use mathlib.Core.Bool.{Bool, ◌&&◌}
use mathlib.Core.Option.{Option, none, some}
use native.Mathlib.Omega.{arith}
use mini_redis.Prelude.Tests.{leb, ltb, if◌then◌else◌}

-- `negsuc n` is -(n + 1).
pub data ℤ : Type 0 where
  pos : ℕ → ℤ
  negsuc : ℕ → ℤ

abbrev pub pos_part : ℤ → ℕ
pos_part (pos n) = n
pos_part (negsuc n) = 0

abbrev pub neg_part : ℤ → ℕ
neg_part (pos n) = 0
neg_part (negsuc n) = suc n

-- a - b, as an integer.
abbrev pub sub_ℕ : ℕ → ℕ → ℤ
sub_ℕ a b = if leb b a then pos (a - b) else negsuc (b - a - 1)

infixl 65 ◌+ℤ◌
infixl 70 ◌*ℤ◌
infix 50 ◌≤ℤ◌
unfoldable pub ◌+ℤ◌ : ℤ → ℤ → ℤ
a +ℤ b = sub_ℕ (pos_part a + pos_part b) (neg_part a + neg_part b)

unfoldable pub ◌*ℤ◌ : ℤ → ℤ → ℤ
a *ℤ b =
    sub_ℕ (pos_part a * pos_part b + neg_part a * neg_part b)
      (pos_part a * neg_part b + neg_part a * pos_part b)

abbrev pub ◌≤ℤ◌ : ℤ → ℤ → Type 0
a ≤ℤ b = pos_part a + neg_part b ≤ pos_part b + neg_part a

abbrev pub leb_ℤ : ℤ → ℤ → Bool
leb_ℤ a b = leb (pos_part a + neg_part b) (pos_part b + neg_part a)

abbrev pub ltb_ℤ : ℤ → ℤ → Bool
ltb_ℤ a b = ltb (pos_part a + neg_part b) (pos_part b + neg_part a)

abbrev pub eq_ℤ : ℤ → ℤ → Bool
eq_ℤ a b = leb_ℤ a b && leb_ℤ b a

-- `i64::MAX`, and the absolute value of `i64::MIN`.
abbrev pub i64_max : ℕ
i64_max = 2 ^ 63 - 1

abbrev pub i64_min_abs : ℕ
i64_min_abs = 2 ^ 63

-- The integers that an `i64` holds.
abbrev pub IsI64 : ℤ → Type 0
IsI64 z = (pos_part z ≤ i64_max) × (neg_part z ≤ i64_min_abs)

unfoldable pub checked : ℤ → Option ℤ
checked z = if leb (pos_part z) i64_max && leb (neg_part z) i64_min_abs then some z else none

-- `i64::checked_mul` and `i64::checked_add`.
unfoldable pub checked_mul : ℤ → ℤ → Option ℤ
unfolding checked ◌*ℤ◌
checked_mul a b = checked (a *ℤ b)

unfoldable pub checked_add : ℤ → ℤ → Option ℤ
unfolding checked ◌+ℤ◌
checked_add a b = checked (a +ℤ b)

pub checked_sound : (z : ℤ) {r : ℤ} → checked z ≡ some r → (r ≡ z) × IsI64 r
unfolding checked
checked_sound z h = ground arith
