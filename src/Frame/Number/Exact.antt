-- ===== src/Frame/Number/Exact.antt =====
-- What `get_decimal` accepts, against the texts of `Denotes`.
use mini_redis.Prelude.{
  ℕ, suc, ◌+◌, ◌-◌, ◌*◌, ◌≤◌, ◌≡◌, refl, sym, ap, ◌∙◌, ◌≢◌, Bool, true, false, inl, inr, [], ◌∷◌,
  ◌++◌, arith, ◌==◌, ==_iff, Bool-cases, length, All,
}
use mini_redis.Prelude.Int.{ℤ, pos}
use mini_redis.Text.{Bytes, crlf}
use mini_redis.Config.{usize_max}
use mini_redis.Text.Decimal.{IsDigit, value, signed, limit, sign_text, Denotes}
use mini_redis.Buf.{Cursor, contiguous, unread, moved}
use mini_redis.Frame.{other}
use mini_redis.Frame.Reader.{ok, err}
use mini_redis.Frame.Reader.Ensures.{Ensures, fails, Ensures-bind, Ensures-map}
use mini_redis.Frame.Line.Exact.{IsLine, ReadsLine, get_line-IsLine, get_line-Ensures}
use mini_redis.Frame.Number.{is_digit, accumulate, decode_decimal, get_decimal}
use mini_redis.Frame.Number.Rounds.{sign, Sum, Refuses, accumulate_complete, accumulate-Ensures}

-- The three ways that the first byte can go.
decode_minus :
    (b : ℕ) (rest : Bytes) (c : Cursor)
    → decode_decimal contiguous (b'-' ∷ b ∷ rest) c
      ≡ accumulate contiguous (suc (suc (length rest))) (b ∷ rest) (sign true) (signed true 0) c
unfolding decode_decimal
decode_minus b rest c = ground arith

decode_digit :
    (b : ℕ) (rest : Bytes) (c : Cursor)
    → is_digit b ≡ true
    → decode_decimal contiguous (b ∷ rest) c
      ≡ accumulate contiguous (suc (length rest)) rest (sign false) (signed false (b - b'0')) c
unfolding decode_decimal
decode_digit b rest c h = ground arith

decode_neither :
    (b : ℕ) (rest : Bytes) (c : Cursor)
    → is_digit b ≡ false
    → b ≢ b'-'
    → decode_decimal contiguous (b ∷ rest) c ≡ err (other "Invalid decimal integer") c
unfolding decode_decimal
decode_neither b rest c h k = ground arith

-- A line that is decoded denotes the result; any other is refused, with the cursor in place.
abbrev Decoded : Bytes → Cursor → ℤ → Cursor → Type 0
Decoded l c z c' = Denotes l z × (c' ≡ c)

Decoded-minus :
    (b : ℕ) (rest : Bytes) (c : Cursor) (z : ℤ) (c' : Cursor)
    → Sum true 0 (b ∷ rest) c z c'
    → Decoded (b'-' ∷ b ∷ rest) c z c'
Decoded-minus b rest c z c' (ds, is, small, same) = (
  record {
    negative = true;
    spelled = b ∷ rest;
    nonempty = cc;
    all_digits = ds;
    text_is = refl;
    value_is = is;
    fits = small;
  },
  same,
)

Decoded-digit :
    (b : ℕ) (rest : Bytes) (c : Cursor) (z : ℤ) (c' : Cursor)
    → IsDigit b
    → Sum false (b - b'0') rest c z c'
    → Decoded (b ∷ rest) c z c'
Decoded-digit b rest c z c' d (ds, is, small, same) =
    let start : 0 * 10 + (b - b'0') ≡ b - b'0' = omega arith in
    (
      record {
        negative = false;
        spelled = b ∷ rest;
        nonempty = cc;
        all_digits = (d, ds);
        text_is = refl;
        value_is = rw start is;
        fits = rw start small;
      },
      same,
    )

pub decode_decimal-Ensures :
    (l : Bytes) (c : Cursor) → Ensures (Decoded l c) (Refuses c) (decode_decimal contiguous l c)
decode_decimal-Ensures [] c = unfold decode_decimal in fails (tt, refl)
decode_decimal-Ensures (b ∷ rest) c = elim (Bool-cases (is_digit b)) [
  | inl digit ↦ rw (decode_digit b rest c digit) (
      Ensures-map
        (accumulate-Ensures false (suc (length rest)) rest (b - b'0') c (omega arith)
          (ground arith))
        (λ z c' r. Decoded-digit b rest c z c' (ground arith) r) (λ e c' q. q))
  | inr other_byte ↦ elim (Bool-cases (b == b'-')) [
    | inr no_minus ↦ rw (decode_neither b rest c other_byte (ground arith)) (fails (tt, refl))
    | inl minus ↦ rw ((==_iff b b'-').0 minus) (after_minus rest)
  ]
]
  where
    after_minus :
        (s : Bytes)
        → Ensures (Decoded (b'-' ∷ s) c) (Refuses c) (decode_decimal contiguous (b'-' ∷ s) c)
    after_minus [] = unfold decode_decimal in fails (tt, refl)
    after_minus (x ∷ s) = rw (decode_minus x s c) (
        Ensures-map
          (accumulate-Ensures true (suc (suc (length s))) (x ∷ s) 0 c (omega arith) (omega arith))
          (Decoded-minus x s c) (λ e c' q. q))

-- A line that denotes a number is decoded to it.
pub decode_decimal-Denotes :
    (l : Bytes) (z : ℤ) (c : Cursor) → Denotes l z → decode_decimal contiguous l c ≡ ok z c
decode_decimal-Denotes l z c d =
    rw (d.text_is, d.value_is) (go d.negative d.spelled d.nonempty d.all_digits d.fits)
  where
    go :
        (s : Bool) (ds : Bytes)
        → ds ≢ []
        → All IsDigit ds
        → value 0 ds ≤ limit s
        → decode_decimal contiguous (sign_text s ds) c ≡ ok (signed s (value 0 ds)) c
    go s [] ne ds fits = absurd (ne refl)
    go false (b ∷ rest) ne ds fits =
        let start : 0 + (b - b'0') ≡ b - b'0' = omega arith in
        let small : value (b - b'0') rest ≤ limit false = rw start at fits in
        decode_digit b rest c (ground arith)
        ∙ accumulate_complete false (suc (length rest)) rest (b - b'0') c (omega arith) ds.1 small
        ∙ ap (λ (k : ℕ). ok (pos (value k rest)) c) (sym start)
    go true (b ∷ rest) ne ds fits =
        decode_minus b rest c
        ∙ accumulate_complete true (suc (suc (length rest))) (b ∷ rest) 0 c (omega arith) ds fits

pub Denotes-IsLine : {l : Bytes} {z : ℤ} → Denotes l z → IsLine l
Denotes-IsLine d = rw d.text_is (go d.negative d.spelled d.all_digits)
  where
    digits_line : (ds : Bytes) → All IsDigit ds → IsLine ds
    digits_line [] h = tt
    digits_line (b ∷ ds) h = (omega arith, digits_line ds h.1)

    go : (s : Bool) (ds : Bytes) → All IsDigit ds → IsLine (sign_text s ds)
    go false ds h = digits_line ds h
    go true ds h = (omega arith, digits_line ds h)

-- A line of the input that denotes `z`.
pub record ReadsNumber (c : Cursor) (z : ℤ) (c' : Cursor) : Type 0 where
  pub line : Bytes
  pub denotes : Denotes line z
  pub reads : ReadsLine c line c'

pub get_decimal-Ensures :
    (c : Cursor) → Ensures (ReadsNumber c) (λ _ _. Unit {0}) (get_decimal contiguous c)
unfolding get_decimal
get_decimal-Ensures c =
    Ensures-bind (get_line-Ensures c)
      (λ l c₁ _ r.
        Ensures-map (decode_decimal-Ensures l c₁)
          (λ z c₂ (d, same). record { line = l; denotes = d; reads = rw same r }) (λ _ _ _. tt))
      (λ _ _ _. tt)

pub get_decimal-Denotes :
    (c : Cursor) (l rest : Bytes) (z : ℤ)
    → c.position ≤ usize_max
    → Denotes l z
    → unread c ≡ l ++ (crlf ++ rest)
    → get_decimal contiguous c ≡ ok z (moved c (length l + 2))
unfolding get_decimal
get_decimal-Denotes c l rest z fits d e =
    rw (get_line-IsLine c l rest fits (Denotes-IsLine d) e)
      (decode_decimal-Denotes l z (moved c (length l + 2)) d)
