-- ===== src/Frame/Number/Rounds.antt =====
-- The rounds of the loop in `get_decimal`, on an accumulator with a sign.
use mini_redis.Prelude.{
  ℕ, zero, suc, ◌+◌, ◌-◌, ◌*◌, ◌≤◌, ◌≡◌, refl, ◌∙◌, Bool, true, false, inl, inr, ◌&&◌, none, some,
  [], ◌∷◌, arith, leb, if◌then◌else◌, Bool-cases, length, All,
}
use mini_redis.Prelude.Int.{ℤ, pos, negsuc, ◌*ℤ◌, ◌+ℤ◌, checked, checked_mul, checked_add}
use mini_redis.Text.{Bytes}
use mini_redis.Text.Decimal.{IsDigit, value, signed, limit, le-value}
use mini_redis.Buf.{Cursor, contiguous}
use mini_redis.Frame.{Error, other}
use mini_redis.Frame.Reader.{ok, err}
use mini_redis.Frame.Reader.Ensures.{Ensures, returns, fails, Ensures-map}
use mini_redis.Frame.Line.Exact.{IsOther}
use mini_redis.Frame.Number.{is_digit, accumulate}

abbrev pub sign : Bool → ℤ
sign false = pos 1
sign true = negsuc 0

-- The checked operations of a round, on the signed accumulator.
checked_mul-signed :
    (s : Bool) (n : ℕ)
    → checked_mul (signed s n) (pos 10)
      ≡ (if leb (n * 10) (limit s) then some (signed s (n * 10)) else none)
unfolding checked_mul checked ◌*ℤ◌
checked_mul-signed false n = ground arith
checked_mul-signed true n = ground arith

checked_add-signed :
    (s : Bool) (m d : ℕ)
    → checked_add (signed s m) (sign s *ℤ pos d)
      ≡ (if leb (m + d) (limit s) then some (signed s (m + d)) else none)
unfolding checked_add checked ◌*ℤ◌ ◌+ℤ◌
checked_add-signed false m d = ground arith
checked_add-signed true m d = ground arith

-- A digit byte whose value still fits moves the loop on.
accumulate_digit :
    (s : Bool) (f b : ℕ) (line : Bytes) (n : ℕ) (c : Cursor)
    → IsDigit b
    → n * 10 + (b - b'0') ≤ limit s
    → accumulate contiguous (suc f) (b ∷ line) (sign s) (signed s n) c
      ≡ accumulate contiguous f line (sign s) (signed s (n * 10 + (b - b'0'))) c
unfolding accumulate
accumulate_digit s f b line n c d fits =
    ground (arith, checked_mul-signed s n, checked_add-signed s (n * 10) (b - b'0'))

pub accumulate_complete :
    (s : Bool) (f : ℕ) (line : Bytes) (n : ℕ) (c : Cursor)
    → length line ≤ f
    → All IsDigit line
    → value n line ≤ limit s
    → accumulate contiguous f line (sign s) (signed s n) c ≡ ok (signed s (value n line)) c
accumulate_complete s zero [] n c h ds fits = unfold accumulate in refl
accumulate_complete s (suc f) [] n c h ds fits = unfold accumulate in refl
accumulate_complete s zero (b ∷ line) n c h ds fits = absurd (omega arith)
accumulate_complete s (suc f) (b ∷ line) n c h ds fits =
    accumulate_digit s f b line n c ds.0 (omega (arith, le-value line (n * 10 + (b - b'0'))))
    ∙ accumulate_complete s f line (n * 10 + (b - b'0')) c (omega arith) ds.1 fits

-- The result of a loop from `n`: the digits read spell it, or the line is refused in place.
abbrev pub Sum : Bool → ℕ → Bytes → Cursor → ℤ → Cursor → Type 0
Sum s n line c z c' =
    All IsDigit line × (z ≡ signed s (value n line)) × (value n line ≤ limit s) × (c' ≡ c)

abbrev pub Refuses : Cursor → Error → Cursor → Type 0
Refuses c e c' = IsOther e × (c' ≡ c)

accumulate_digit-Ensures :
    (s : Bool) (f b : ℕ) (line : Bytes) (n : ℕ) (c : Cursor)
    → IsDigit b
    → n * 10 + (b - b'0') ≤ limit s
    → Ensures
        (Sum s (n * 10 + (b - b'0')) line c)
        (Refuses c)
        (accumulate contiguous f line (sign s) (signed s (n * 10 + (b - b'0'))) c)
    → Ensures
        (Sum s n (b ∷ line) c)
        (Refuses c)
        (accumulate contiguous (suc f) (b ∷ line) (sign s) (signed s n) c)
accumulate_digit-Ensures s f b line n c d fits later =
    rw (accumulate_digit s f b line n c d fits)
      (Ensures-map later (λ z c' (ds, is, small, same). ((d, ds), is, small, same)) (λ e c' q. q))

-- A byte that is no digit, or whose value does not fit, ends the loop with an error in place.
accumulate-Refuses :
    (s : Bool) (f b : ℕ) (line : Bytes) (n : ℕ) (c : Cursor)
    → (is_digit b && leb (n * 10 + (b - b'0')) (limit s)) ≡ false
    → Ensures
        (Sum s n (b ∷ line) c)
        (Refuses c)
        (accumulate contiguous (suc f) (b ∷ line) (sign s) (signed s n) c)
unfolding accumulate
accumulate-Refuses s f b line n c h = elim (Bool-cases (is_digit b && leb (n * 10) (limit s))) [
  | inl large ↦ rw (overflow large) (fails (tt, refl))
  | inr stops ↦ elim (Bool-cases (leb (n * 10) (limit s))) [
    | inl small ↦ rw (no_digit small stops) (fails (tt, refl))
    | inr large ↦ rw (scaling large) (fails (tt, refl))
  ]
]
  where
    overflow :
        (is_digit b && leb (n * 10) (limit s)) ≡ true
        → accumulate contiguous (suc f) (b ∷ line) (sign s) (signed s n) c
          ≡ err (other "Integer overflow") c
    overflow e = ground (arith, checked_mul-signed s n, checked_add-signed s (n * 10) (b - b'0'))

    scaling :
        leb (n * 10) (limit s) ≡ false
        → accumulate contiguous (suc f) (b ∷ line) (sign s) (signed s n) c
          ≡ err (other "Integer overflow") c
    scaling e = ground (arith, checked_mul-signed s n)

    no_digit :
        leb (n * 10) (limit s) ≡ true
        → (is_digit b && leb (n * 10) (limit s)) ≡ false
        → accumulate contiguous (suc f) (b ∷ line) (sign s) (signed s n) c
          ≡ err (other "Invalid decimal integer") c
    no_digit e k = ground (arith, checked_mul-signed s n)

pub accumulate-Ensures :
    (s : Bool) (f : ℕ) (line : Bytes) (n : ℕ) (c : Cursor)
    → length line ≤ f
    → n ≤ limit s
    → Ensures (Sum s n line c) (Refuses c) (accumulate contiguous f line (sign s) (signed s n) c)
accumulate-Ensures s zero [] n c h fits = unfold accumulate in returns (tt, refl, fits, refl)
accumulate-Ensures s (suc f) [] n c h fits = unfold accumulate in returns (tt, refl, fits, refl)
accumulate-Ensures s zero (b ∷ line) n c h fits = absurd (omega arith)
accumulate-Ensures s (suc f) (b ∷ line) n c h fits =
    elim (Bool-cases (is_digit b && leb (n * 10 + (b - b'0')) (limit s))) [
      | inl good ↦
          let small : n * 10 + (b - b'0') ≤ limit s = ground arith in
          accumulate_digit-Ensures s f b line n c (ground arith) small
            (accumulate-Ensures s f line (n * 10 + (b - b'0')) c (omega arith) small)
      | inr bad ↦ accumulate-Refuses s f b line n c bad
    ]
