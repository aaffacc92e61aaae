-- ===== src/Frame/Grammar/Sound.antt =====
-- `parse_data` of src/frame.rs behind a check that succeeded.
use native.Mathlib.Decide.{dec_lt}
use mini_redis.Prelude.{
  ℕ, zero, suc, ◌+◌, ◌≡◌, refl, sym, ap, ◌∙◌, inl, inr, false, [], ◌∷◌, ◌++◌, arith, leb, ◌==◌,
  ==_iff, ◌||◌, ◌≢◌, Bool-cases,
}
use mini_redis.Text.{Bytes}
use mini_redis.Config.{max_array_depth}
use mini_redis.Buf.{Cursor, contiguous, unread, moved}
use mini_redis.Frame.{Frame, simple, error}
use mini_redis.Frame.Reader.{ok, Reader, pure}
use mini_redis.Frame.Reader.Ensures.{
  Ensures, returns, Ensures-ok, Ensures-bind, Ensures-map, continue-eq-ok,
}
use mini_redis.Frame.Line.{get_line}
use mini_redis.Frame.Number.{get_decimal}
use mini_redis.Frame.Number.Exact.{ReadsNumber, get_decimal-Ensures}
use mini_redis.Frame.Check.{check_bulk, check_elements, check_marked, check_with_depth}
use mini_redis.Frame.Check.Payload.{check_bulk-Ensures}
use mini_redis.Frame.Parse.{parse_string, parse_marked, parse_data}
use mini_redis.Frame.Grammar.{line, Spells, spells_simple, spells_error, spells_integer}
use mini_redis.Frame.Grammar.Step.{check_with_depth-nil, check_with_depth-cons, parse_data-cons}
use mini_redis.Frame.Grammar.Took.{Took-trans, Took-ahead, ReadsLine-Took}
use mini_redis.Frame.Grammar.Leaves.{
  Decoded, OnlyOther, parse_string-Decoded, parse_bulk-Bulk, get_decimal-line,
}
use mini_redis.Frame.Grammar.Elements.{elements_sound}

-- The property of one branch of the match on the marker.
abbrev SoundAt : ℕ → Reader (Unit {0}) → Reader Frame → ℕ → Cursor → Cursor → Type 0
SoundAt d child decode b c c' =
    check_marked contiguous child d b c ≡ ok tt c'
    → Ensures (Decoded (λ x t. Spells d x (b ∷ t)) c c') OnlyOther
        (parse_marked contiguous decode b c)

module _ (d : ℕ) (child : Reader (Unit {0})) (decode : Reader Frame)
    (sound : (c c' : Cursor)
      → child c ≡ ok tt c'
      → Ensures (Decoded (Spells (d + 1)) c c') OnlyOther (decode c)) where
  plus_sound : (c c' : Cursor) → SoundAt d child decode b'+' c c'
  unfolding check_marked parse_marked
  plus_sound c c' e =
      let (l, c₁, reads, done) = continue-eq-ok (get_line contiguous c) (λ _. pure tt) e in
      let at_end : c₁ ≡ c' = cc in
      Ensures-map
        (parse_string-Decoded b'+' simple c c' l (reads ∙ ap (ok l) at_end)
          (λ _. unfold parse_string in refl))
        (λ x c₂ p.
          let (s, is_line, good, is, text_is) = p.spells in
          record {
            text = p.text;
            spells = rw is (spells_simple is_line good (ap (◌∷◌ b'+') text_is));
            took = p.took;
            same = p.same;
          })
        (λ _ _ o. o)

  minus_sound : (c c' : Cursor) → SoundAt d child decode b'-' c c'
  unfolding check_marked parse_marked
  minus_sound c c' e =
      let (l, c₁, reads, done) = continue-eq-ok (get_line contiguous c) (λ _. pure tt) e in
      let at_end : c₁ ≡ c' = cc in
      Ensures-map
        (parse_string-Decoded b'-' error c c' l (reads ∙ ap (ok l) at_end)
          (λ _. unfold parse_string in refl))
        (λ x c₂ p.
          let (s, is_line, good, is, text_is) = p.spells in
          record {
            text = p.text;
            spells = rw is (spells_error is_line good (ap (◌∷◌ b'-') text_is));
            took = p.took;
            same = p.same;
          })
        (λ _ _ o. o)

  colon_sound : (c c' : Cursor) → SoundAt d child decode b':' c c'
  unfolding check_marked parse_marked
  colon_sound c c' e =
      let (l, c₁, reads, done) = continue-eq-ok (get_line contiguous c) (λ _. pure tt) e in
      let at_end : c₁ ≡ c' = cc in
      Ensures-bind (get_decimal-line c c' l (reads ∙ ap (ok l) at_end))
        (λ z c₂ _ p. returns (record {
          text = p.text;
          spells = spells_integer l p.spells.0 (ap (◌∷◌ b':') p.spells.1);
          took = p.took;
          same = p.same;
        }))
        (λ _ _ o. o)

  dollar_sound : (c c' : Cursor) → SoundAt d child decode b'$' c c'
  unfolding check_marked parse_marked
  dollar_sound c c' e =
      let (n, c₁, number, payload) =
        continue-eq-ok (get_decimal contiguous c) (check_bulk contiguous) e in
      let r : ReadsNumber c n c₁ = Ensures-ok (get_decimal-Ensures c) number in
      let (x, t, decodes, took, spelled) =
        parse_bulk-Bulk n c₁ c' r.line r.denotes (Ensures-ok (check_bulk-Ensures n c₁) payload) in
      rw (number, decodes)
        (returns (record {
          text = line r.line ++ t;
          spells = spelled d;
          took = Took-trans (ReadsLine-Took r.reads) took;
          same = refl;
        }))

  star_sound : (c c' : Cursor) → SoundAt d child decode b'*' c c'
  unfolding check_marked parse_marked
  star_sound c c' e = elim (dec_lt d max_array_depth) [
    | no deep ↦ absurd (ground arith)
    | yes shallow ↦
        let shut : leb max_array_depth d ≡ false = ground arith in
        let (n, c₁, number, rest) =
          continue-eq-ok (get_decimal contiguous c) (check_elements child) (rw shut at e) in
        let r : ReadsNumber c n c₁ = Ensures-ok (get_decimal-Ensures c) number in
        rw number (
          Ensures-map (elements_sound d child decode sound n c₁ c' r.line shallow r.denotes rest)
            (λ x c₂ p. record {
              text = line r.line ++ p.text;
              spells = p.spells;
              took = Took-trans (ReadsLine-Took r.reads) p.took;
              same = p.same;
            })
            (λ _ _ o. o))
  ]

  no_marker_sound :
      (b : ℕ) (c c' : Cursor)
      → (b == b'+' || b == b'-' || b == b':' || b == b'$' || b == b'*') ≡ false
      → SoundAt d child decode b c c'
  unfolding check_marked
  no_marker_sound b c c' none_of e = absurd (ground arith)

  pub marked_sound : (b : ℕ) (c c' : Cursor) → SoundAt d child decode b c c'
  marked_sound b c c' = elim (Bool-cases (b == b'+')) [
    | inl h ↦ rw ((==_iff b b'+').0 h) (plus_sound c c')
    | inr h₁ ↦ elim (Bool-cases (b == b'-')) [
      | inl h ↦ rw ((==_iff b b'-').0 h) (minus_sound c c')
      | inr h₂ ↦ elim (Bool-cases (b == b':')) [
        | inl h ↦ rw ((==_iff b b':').0 h) (colon_sound c c')
        | inr h₃ ↦ elim (Bool-cases (b == b'$')) [
          | inl h ↦ rw ((==_iff b b'$').0 h) (dollar_sound c c')
          | inr h₄ ↦ elim (Bool-cases (b == b'*')) [
            | inl h ↦ rw ((==_iff b b'*').0 h) (star_sound c c')
            | inr h₅ ↦ no_marker_sound b c c' (ground arith)
          ]
        ]
      ]
    ]
  ]

check_zero : (d : ℕ) (c c' : Cursor) → check_with_depth contiguous 0 d c ≢ ok tt c'
unfolding check_with_depth
check_zero d c c' e = cc

pub check_with_depth-Decoded :
    (f d : ℕ) (c c' : Cursor)
    → check_with_depth contiguous f d c ≡ ok tt c'
    → Ensures (Decoded (Spells d) c c') OnlyOther (parse_data contiguous f c)
check_with_depth-Decoded zero d c c' e = absurd (check_zero d c c' e)
check_with_depth-Decoded (suc f) d c c' e =
    at_front (unread c) refl (marked_sound d _ _ (check_with_depth-Decoded f (d + 1)))
  where
    at_front :
        (s : Bytes)
        → unread c ≡ s
        → ((b : ℕ) (c₁ c₂ : Cursor)
            → SoundAt d (check_with_depth contiguous f (d + 1)) (parse_data contiguous f) b c₁ c₂)
        → Ensures (Decoded (Spells d) c c') OnlyOther (parse_data contiguous (suc f) c)
    at_front [] h all = absurd (ground (arith, check_with_depth-nil f d c h))
    at_front (b ∷ rest) h all = rw (parse_data-cons f c b rest h) (
        Ensures-map (all b (moved c 1) c' (sym (check_with_depth-cons f d c b rest h) ∙ e))
          (λ x c₂ p. record {
            text = b ∷ p.text;
            spells = p.spells;
            took = Took-trans (Took-ahead c (b ∷ []) rest h) p.took;
            same = p.same;
          })
          (λ _ _ o. o))
