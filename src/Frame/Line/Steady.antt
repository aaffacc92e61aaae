-- ===== src/Frame/Line/Steady.antt =====
-- `get_line` as more input arrives.
use native.Mathlib.Decide.{dec_le}
use mini_redis.Prelude.{
  ◌<◌, ℕ, ◌+◌, ◌≤◌, ◌≡◌, sym, ap, ◌∙◌, subst, none, String, [], ◌∷◌, ◌++◌, arith, leb, ◌==◌,
  Bool-cases, length, take, drop, length-append, length-drop, inl, inr, drop-append_within,
  take-append_within,
}
use mini_redis.Text.{Bytes, cr, lf}
use mini_redis.Config.{usize_max}
use mini_redis.Buf.{Cursor, contiguous, unread, extended, IsInside, unread-extended}
use mini_redis.Frame.{incomplete, other}
use mini_redis.Frame.Reader.{pure, or_panic, skip}
use mini_redis.Frame.Reader.Steady.{
  Extends, value_stays, refusal_stays, waits, panics, Steady, Extends-continue, Steady-bind,
  Steady-pure, skip-Steady,
}
use mini_redis.Frame.Line.Exact.{slice-take}
use mini_redis.Frame.Line.{
  Scan, line_end, scan_error, after_cr, scan_line, slice, finish_line, get_line,
}

-- A scan that has ended ends in the same way before more bytes.
data Scanned : Scan → Scan → Type 0 where
  line_stays : {k : ℕ} → Scanned (line_end k) (line_end k)
  error_stays : {m : String} → Scanned (scan_error (other m)) (scan_error (other m))
  unscanned : {r : Scan} → Scanned (scan_error incomplete) r

Scanned-refl : (r : Scan) → Scanned r r
Scanned-refl (line_end k) = line_stays
Scanned-refl (scan_error incomplete) = unscanned
Scanned-refl (scan_error (other m)) = error_stays

after_cr-Scanned : (s more : Bytes) (i : ℕ) → Scanned (after_cr s i) (after_cr (s ++ more) i)
unfolding after_cr
after_cr-Scanned [] more i = unscanned
after_cr-Scanned (b ∷ s) more i = Scanned-refl (after_cr (b ∷ s) i)

scan_line-Scanned : (s more : Bytes) (i : ℕ) → Scanned (scan_line s i) (scan_line (s ++ more) i)
unfolding scan_line
scan_line-Scanned [] more i = unscanned
scan_line-Scanned (b ∷ s) more i = elim (Bool-cases (b == lf)) [
  | inl at_lf ↦ rw at_lf error_stays
  | inr no_lf ↦ elim (Bool-cases (b == cr)) [
    | inl at_cr ↦ rw (no_lf, at_cr) (after_cr-Scanned s more i)
    | inr no_cr ↦ rw (no_lf, no_cr) (scan_line-Scanned s more (i + 1))
  ]
]

take-drop_within :
    (s more : Bytes) (p n : ℕ) → p + n ≤ length s → take n (drop p (s ++ more)) ≡ take n (drop p s)
take-drop_within s more p n room =
    ap (take n) (drop-append_within p s more (omega arith))
    ∙ take-append_within n (drop p s) more (omega (arith, length-drop p s))

slice-outside : (s : Bytes) (p n : ℕ) → length s < p + n → slice s p (p + n) ≡ none
slice-outside s p n short = ground arith

-- The slice of `n` bytes from `p` on, in a text that grows.
slice-Extends :
    (more : Bytes) (c : Cursor) (s : Bytes) (p n : ℕ)
    → IsInside c
    → Extends more
        (or_panic (slice s p (p + n)) c)
        (or_panic (slice (s ++ more) p (p + n)) (extended c more))
slice-Extends more c s p n h = elim (dec_le (p + n) (length s)) [
  | no short ↦ rw (slice-outside s p n (omega arith)) panics
  | yes room ↦
      rw
        (
          slice-take s p n room,
          slice-take (s ++ more) p n (omega (arith, length-append s more)),
          take-drop_within s more p n room,
        )
        (value_stays h)
]

-- The first `n` bytes of the chunk.
pub chunk-Steady : (n : ℕ) → Steady (λ c. or_panic (slice (unread c) 0 n) c)
chunk-Steady n more c h =
    let start : 0 + n ≡ n = omega arith in
    subst
      (λ k.
        Extends more (or_panic (slice (unread c) 0 k) c)
          (or_panic (slice (unread (extended c more)) 0 k) (extended c more)))
      start (rw (unread-extended c more h) (slice-Extends more c (unread c) 0 n h))

finish_line-Extends :
    (more : Bytes) (c : Cursor) (r r' : Scan)
    → IsInside c
    → Scanned r r'
    → Extends more (finish_line contiguous r c) (finish_line contiguous r' (extended c more))
unfolding finish_line
finish_line-Extends more c _ _ h (line_stays {k}) =
    Extends-continue (slice-Extends more c c.contents c.position k h) (λ result c₁ _ h₁.
      Steady-bind (skip contiguous (k + 2)) (λ _. pure result) (skip-Steady (k + 2))
        (λ _. Steady-pure result) more c₁ h₁)
finish_line-Extends more c _ _ h error_stays = refusal_stays
finish_line-Extends more c _ _ h unscanned = waits

pub get_line-Steady : Steady (get_line contiguous)
unfolding get_line
get_line-Steady more c h = elim (Bool-cases (leb c.position usize_max)) [
  | inr far ↦ rw far refusal_stays
  | inl near ↦ rw near (
      finish_line-Extends more c (scan_line (unread c) 0) (scan_line (unread (extended c more)) 0) h
        (subst (λ s. Scanned (scan_line (unread c) 0) (scan_line s 0))
          (sym (unread-extended c more h)) (scan_line-Scanned (unread c) more 0)))
]
