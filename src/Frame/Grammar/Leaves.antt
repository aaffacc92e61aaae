-- ===== src/Frame/Grammar/Leaves.antt =====
-- Decoded values and the bytes that spell them, for the parts of a frame that hold no other frame.
use mini_redis.Prelude.{
  ℕ, ◌+◌, ◌≡◌, refl, sym, ap, ◌∙◌, subst, inl, inr, true, [], ◌∷◌, ◌++◌, append-nil, arith,
  Bool-cases,
}
use mini_redis.Prelude.Int.{ℤ, pos}
use mini_redis.Text.{Bytes, from_utf8, is_utf8}
use mini_redis.Text.Decimal.{Denotes}
use mini_redis.Buf.{Cursor, contiguous, moved}
use mini_redis.Frame.{Frame, bulk, null, Error}
use mini_redis.Frame.Reader.{ok, pure, continue, ◌>>=◌, or_other}
use mini_redis.Frame.Reader.Ensures.{Ensures, returns, fails, Ensures-ok, Ensures-map}
use mini_redis.Frame.Line.{get_line}
use mini_redis.Frame.Line.Exact.{IsLine, IsOther, ReadsLine, get_line-Ensures}
use mini_redis.Frame.Number.{get_decimal}
use mini_redis.Frame.Number.Exact.{decode_decimal-Ensures}
use mini_redis.Frame.Check.Payload.{Bulk, no_payload, payload_of}
use mini_redis.Frame.Parse.{parse_string, parse_bulk}
use mini_redis.Frame.Grammar.{line, Spells, spells_bulk, spells_null_bulk}
use mini_redis.Frame.Grammar.Reads.{parse_bulk_ahead}
use mini_redis.Frame.Grammar.Took.{
  Took, Took-nil, ReadsLine-Took, Payload-Took, Payload-take, Payload-room,
}

-- `P` holds of the value and of the bytes from `c` to `c'`, where the cursor is left.
pub record Decoded {A : Type 0} (P : A → Bytes → Type 0) (c c' : Cursor) (x : A) (left : Cursor)
    : Type 0 where
  pub text : Bytes
  pub spells : P x text
  pub took : Took text c c'
  pub same : left ≡ c'

abbrev pub OnlyOther : Error → Cursor → Type 0
OnlyOther e c = IsOther e

-- A string behind its marker, once the check has read its line.
pub parse_string-Decoded :
    (b : ℕ) (wrap : Bytes → Frame) (c c' : Cursor) (l : Bytes)
    → get_line contiguous c ≡ ok l c'
    → ((s : Bytes)
        → parse_string contiguous b c
          ≡ continue
              (get_line contiguous c)
              (λ l. or_other (from_utf8 l) "Invalid UTF-8" >>= λ s. pure (wrap s)))
    → Ensures
        (Decoded
          (λ x t. (s : Bytes) × IsLine s × (is_utf8 s ≡ true) × (x ≡ wrap s) × (t ≡ line s))
          c
          c')
        OnlyOther
        (parse_string contiguous b c)
unfolding from_utf8
parse_string-Decoded b wrap c c' l e body =
    let r : ReadsLine c l c' = Ensures-ok (get_line-Ensures c) e in
    rw (body l, e)
      (elim (Bool-cases (is_utf8 l)) [
        | inr bad ↦ rw bad (fails tt)
        | inl good ↦ rw good (
            returns (record {
              text = line l;
              spells = (l, r.is_line, good, refl, refl);
              took = ReadsLine-Took r;
              same = refl;
            }))
      ])

-- A bulk string behind its length.
pub parse_bulk-Bulk :
    (n : ℤ) (c c' : Cursor) (l : Bytes)
    → Denotes l n
    → Bulk n c c'
    → (x : Frame) × (t : Bytes) × (parse_bulk contiguous n c ≡ ok x c')
      × Took t c c'
      × ((d : ℕ) → Spells d x (b'$' ∷ (line l ++ t)))
parse_bulk-Bulk n c c' l den (no_payload is_null same) = (
  null,
  [],
  ap (λ m. parse_bulk contiguous m c) is_null ∙ (unfold parse_bulk in ap (ok null) (sym same)),
  subst (Took [] c) (sym same) (Took-nil c),
  λ d. spells_null_bulk l (subst (Denotes l) is_null den) (ap (◌∷◌ b'$') (append-nil (line l))),
)
parse_bulk-Bulk n c c' l den (payload_of k is_k fits p) = (
  bulk p.payload,
  line p.payload,
  ap (λ m. parse_bulk contiguous m c) is_k
      ∙ parse_bulk_ahead c k fits (Payload-room p)
      ∙ ap (λ s. ok (bulk s) (moved c (k + 2))) (Payload-take p)
      ∙ ap (ok (bulk p.payload)) (sym p.moves),
  Payload-Took p,
  λ d.
      spells_bulk l (subst (Denotes l) (is_k ∙ ap pos (sym p.size_is)) den)
        (omega (arith, p.size_is)) refl,
)

-- An integer behind its marker: the check has read its line without a look at its contents.
pub get_decimal-line :
    (c c' : Cursor) (l : Bytes)
    → get_line contiguous c ≡ ok l c'
    → Ensures
        (Decoded (λ z t. Denotes l z × (t ≡ line l)) c c')
        OnlyOther
        (get_decimal contiguous c)
unfolding get_decimal
get_decimal-line c c' l e =
    let r : ReadsLine c l c' = Ensures-ok (get_line-Ensures c) e in
    rw e (
      Ensures-map (decode_decimal-Ensures l c')
        (λ z c'' (den, same). record {
          text = line l;
          spells = (den, refl);
          took = ReadsLine-Took r;
          same = same;
        })
        (λ _ _ q. q.0))
