-- ===== src/Frame/Check/Payload.antt =====
-- What the check of a bulk string accepts.
use native.Mathlib.Decide.{dec_le}
use mini_redis.Prelude.{
  ℕ, zero, suc, ◌+◌, ◌≤◌, ◌<◌, ◌≡◌, refl, sym, ap, ◌∙◌, ◌⊎◌, inl, inr, [], ◌∷◌, ◌++◌, arith, ◌==◌,
  ==_iff, Bool-cases, length, take, length-append, length-take, take-append-drop, length-drop,
}
use mini_redis.Prelude.Int.{ℤ, pos, negsuc}
use mini_redis.Text.{Bytes, cr, lf, crlf}
use mini_redis.Config.{usize_max}
use mini_redis.Buf.{Cursor, contiguous, unread, moved, moved-moved, unread-behind, unread-moved}
use mini_redis.Frame.{incomplete, other}
use mini_redis.Frame.Reader.{ok, err}
use mini_redis.Frame.Reader.Contiguous.{read_u8-ahead}
use mini_redis.Frame.Reader.Ensures.{Ensures, returns, fails, Ensures-map}
use mini_redis.Frame.Check.{check_terminator, check_payload, check_bulk}

check_terminator-crlf :
    (c : Cursor) (rest : Bytes)
    → unread c ≡ crlf ++ rest
    → check_terminator contiguous c ≡ ok tt (moved c 2)
unfolding check_terminator
check_terminator-crlf c rest e =
    let second : unread (moved c 1) ≡ lf ∷ rest = unread-behind c (cr ∷ []) (lf ∷ rest) e in
    rw (read_u8-ahead c cr (lf ∷ rest) e, read_u8-ahead (moved c 1) lf rest second)
      (ap (ok tt) (moved-moved c 1 1))

-- Any two other bytes are refused.
check_terminator_other :
    (c : Cursor) (a b : ℕ) (rest : Bytes)
    → unread c ≡ a ∷ b ∷ rest
    → ((a ≡ cr) × (b ≡ lf))
      ⊎ ((c' : Cursor) × (check_terminator contiguous c
            ≡ err (other "Invalid bulk string terminator") c'))
unfolding check_terminator
check_terminator_other c a b rest e =
    let second : unread (moved c 1) ≡ b ∷ rest = unread-behind c (a ∷ []) (b ∷ rest) e in
    elim (Bool-cases (a == cr)) [
      | inr no_cr ↦ inr (moved c 1, rw (read_u8-ahead c a (b ∷ rest) e, no_cr))
      | inl is_cr ↦ elim (Bool-cases (b == lf)) [
        | inl is_lf ↦ inl ((==_iff a cr).0 is_cr, (==_iff b lf).0 is_lf)
        | inr no_lf ↦ inr (
          moved (moved c 1) 1,
          rw (
            read_u8-ahead c a (b ∷ rest) e,
            is_cr,
            read_u8-ahead (moved c 1) b rest second,
            no_lf,
          ),
        )
      ]
    ]

-- `k` bytes and CRLF are ahead.
pub record Payload (c : Cursor) (k : ℕ) (c' : Cursor) : Type 0 where
  pub payload : Bytes
  pub rest : Bytes
  pub size_is : length payload ≡ k
  pub splits : unread c ≡ payload ++ (crlf ++ rest)
  pub moves : c' ≡ moved c (k + 2)

check_terminator-Ensures :
    (c : Cursor)
    → 2 ≤ length (unread c)
    → Ensures
        (λ _ c'. (rest : Bytes) × (unread c ≡ crlf ++ rest) × (c' ≡ moved c 2))
        (λ _ _. Unit {0})
        (check_terminator contiguous c)
check_terminator-Ensures c h = go (unread c) refl h
  where
    go :
        (s : Bytes)
        → unread c ≡ s
        → 2 ≤ length s
        → Ensures
            (λ _ c'. (rest : Bytes) × (unread c ≡ crlf ++ rest) × (c' ≡ moved c 2))
            (λ _ _. Unit {0})
            (check_terminator contiguous c)
    go [] e k = absurd (omega arith)
    go (a ∷ []) e k = absurd (omega arith)
    go (a ∷ b ∷ rest) e k = elim (check_terminator_other c a b rest e) [
      | inl (is_cr, is_lf) ↦
          let ahead : unread c ≡ crlf ++ rest = e ∙ rw (is_cr, is_lf) in
          rw (check_terminator-crlf c rest ahead) (returns (rest, ahead, refl))
      | inr (c', refused) ↦ rw refused (fails tt)
    ]

-- What is left of `check_payload` where the payload and its terminator are ahead, and where not.
check_payload_ahead :
    (c : Cursor) (k : ℕ)
    → k + 2 ≤ usize_max
    → k + 2 ≤ length (unread c)
    → check_payload contiguous (pos k) c ≡ check_terminator contiguous (moved c k)
unfolding check_payload
check_payload_ahead c k fits room = ground arith

check_payload_large :
    (c : Cursor) (k : ℕ)
    → usize_max < k + 2
    → check_payload contiguous (pos k) c ≡ err (other "Bulk string length overflow") c
unfolding check_payload
check_payload_large c k large = ground arith

check_payload_short :
    (c : Cursor) (k : ℕ)
    → k + 2 ≤ usize_max
    → length (unread c) < k + 2
    → check_payload contiguous (pos k) c ≡ err incomplete c
unfolding check_payload
check_payload_short c k fits short = ground arith

Payload-ahead :
    (c : Cursor) (k : ℕ) (rest : Bytes) (c' : Cursor)
    → k ≤ length (unread c)
    → unread (moved c k) ≡ crlf ++ rest
    → c' ≡ moved (moved c k) 2
    → Payload c k c'
Payload-ahead c k rest c' room e m = record {
  payload = take k (unread c);
  rest = rest;
  size_is = omega (arith, length-take k (unread c));
  splits =
      sym (take-append-drop k (unread c))
      ∙ ap (λ s. take k (unread c) ++ s) (sym (unread-moved c k) ∙ e);
  moves = m ∙ moved-moved c k 2;
}

check_payload-Ensures :
    (c : Cursor) (k : ℕ)
    → Ensures
        (λ _ c'. Payload c k c' × (k + 2 ≤ usize_max))
        (λ _ _. Unit {0})
        (check_payload contiguous (pos k) c)
check_payload-Ensures c k = elim (dec_le (k + 2) usize_max) [
  | no large ↦ rw (check_payload_large c k (omega arith)) (fails tt)
  | yes fits ↦ elim (dec_le (k + 2) (length (unread c))) [
    | no short ↦ rw (check_payload_short c k fits (omega arith)) (fails tt)
    | yes room ↦
        let left : 2 ≤ length (unread (moved c k)) =
          omega (arith, ap length (unread-moved c k), length-drop k (unread c)) in
        rw (check_payload_ahead c k fits room) (
          Ensures-map (check_terminator-Ensures (moved c k) left)
            (λ _ c' (rest, e, m). (Payload-ahead c k rest c' (omega arith) e m, fits))
            (λ _ _ _. tt))
  ]
]

pub check_payload-Payload :
    (c : Cursor) (s rest : Bytes)
    → length s + 2 ≤ usize_max
    → unread c ≡ s ++ (crlf ++ rest)
    → check_payload contiguous (pos (length s)) c ≡ ok tt (moved c (length s + 2))
check_payload-Payload c s rest fits e =
    let long : length (unread c) ≡ length s + (2 + length rest) =
      ap length e ∙ length-append s (crlf ++ rest) ∙ omega arith in
    check_payload_ahead c (length s) fits (omega arith)
    ∙ check_terminator-crlf (moved c (length s)) rest (unread-behind c s (crlf ++ rest) e)
    ∙ ap (ok tt) (moved-moved c (length s) 2)

-- The null length leaves the cursor; any other that passes has its payload ahead.
pub data Bulk (n : ℤ) (c c' : Cursor) : Type 0 where
  no_payload : n ≡ negsuc 0 → c' ≡ c → Bulk n c c'
  payload_of : (k : ℕ) → n ≡ pos k → k + 2 ≤ usize_max → Payload c k c' → Bulk n c c'

pub check_bulk_pos :
    (k : ℕ) (c : Cursor) → check_bulk contiguous (pos k) c ≡ check_payload contiguous (pos k) c
unfolding check_bulk
check_bulk_pos k c = ground arith

check_bulk_negative :
    (n : ℕ) (c : Cursor)
    → check_bulk contiguous (negsuc (suc n)) c ≡ err (other "Invalid bulk string length") c
unfolding check_bulk
check_bulk_negative n c = ground arith

pub check_bulk-Ensures :
    (n : ℤ) (c : Cursor)
    → Ensures (λ _ c'. Bulk n c c') (λ _ _. Unit {0}) (check_bulk contiguous n c)
unfolding check_bulk
check_bulk-Ensures (negsuc zero) c = returns (no_payload refl refl)
check_bulk-Ensures (negsuc (suc n)) c = rw (check_bulk_negative n c) (fails tt)
check_bulk-Ensures (pos k) c = rw (check_bulk_pos k c) (
    Ensures-map (check_payload-Ensures c k) (λ _ c' (p, fits). payload_of k refl fits p)
      (λ _ _ _. tt))
