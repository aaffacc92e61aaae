-- ===== src/Frame/Grammar/Elements.antt =====
-- The elements of an array, behind its checked count.
use native.Mathlib.Decide.{dec_lt}
use mini_redis.Prelude.{
  ℕ, zero, suc, ◌+◌, ◌≤◌, ◌<◌, ◌≡◌, refl, sym, ap, ◌∙◌, subst, [], ◌∷◌, ◌++◌, append-nil, arith,
  ◌≢◌,
}
use mini_redis.Prelude.Int.{ℤ, pos, negsuc}
use mini_redis.Text.{Bytes}
use mini_redis.Text.Decimal.{Denotes}
use mini_redis.Config.{max_array_depth, array_length_limit_exclusive}
use mini_redis.Buf.{Cursor}
use mini_redis.Frame.{Frame, Frames, array, frame_count}
use mini_redis.Frame.Reader.{ok, Reader, pure, continue}
use mini_redis.Frame.Reader.Ensures.{Ensures, returns, Ensures-bind, continue-eq-ok}
use mini_redis.Frame.Check.{repeat, check_elements}
use mini_redis.Frame.Parse.{collect, parse_elements}
use mini_redis.Frame.Grammar.{
  line, Spells, SpellsAll, spells_null_array, spells_array, spells_nil, spells_cons,
}
use mini_redis.Frame.Grammar.Accept.{check_elements-repeat}
use mini_redis.Frame.Grammar.Took.{Took, Took-nil, Took-trans}
use mini_redis.Frame.Grammar.Leaves.{Decoded, OnlyOther}

-- The elements of an array, all read.
abbrev DecodedAll : ℕ → ℕ → Cursor → Cursor → Frames → Cursor → Type 0
DecodedAll d n = Decoded (λ fs t. SpellsAll d fs t × (frame_count fs ≡ n))

module _ (d : ℕ) (child : Reader (Unit {0})) (decode : Reader Frame)
    (sound : (c c' : Cursor)
      → child c ≡ ok tt c'
      → Ensures (Decoded (Spells (d + 1)) c c') OnlyOther (decode c)) where
  collect-Decoded :
      (n : ℕ) (c c' : Cursor)
      → repeat n child c ≡ ok tt c'
      → Ensures (DecodedAll (d + 1) n c c') OnlyOther (collect n decode c)
  unfolding collect repeat
  collect-Decoded zero c c' e = returns (record {
    text = [];
    spells = (spells_nil refl, refl);
    took = subst (Took [] c) (cc) (Took-nil c);
    same = cc;
  })
  collect-Decoded (suc n) c c' e =
      let (_, c₁, first, others) = continue-eq-ok (child c) (λ _. repeat n child) e in
      Ensures-bind (sound c c₁ first)
        (λ x c₂ _ p.
          Ensures-bind
            (subst (λ y. Ensures (DecodedAll (d + 1) n c₁ c') OnlyOther (collect n decode y))
              (sym p.same) (collect-Decoded n c₁ c' others))
            (λ fs c₃ _ q. returns (record {
              text = p.text ++ q.text;
              spells = (spells_cons p.text q.text p.spells q.spells.0 refl, ap suc q.spells.1);
              took = Took-trans p.took q.took;
              same = q.same;
            }))
            (λ _ _ o. o))
        (λ _ _ o. o)

  elements_negative : (m : ℕ) (c c' : Cursor) → check_elements child (negsuc (suc m)) c ≢ ok tt c'
  unfolding check_elements
  elements_negative m c c' e = ground arith

  elements_many :
      (k : ℕ) (c c' : Cursor)
      → array_length_limit_exclusive ≤ k
      → check_elements child (pos k) c ≢ ok tt c'
  unfolding check_elements
  elements_many k c c' h e = ground arith

  null_elements : (c c' : Cursor) → check_elements child (negsuc 0) c ≡ ok tt c' → c ≡ c'
  unfolding check_elements
  null_elements c c' e = cc

  -- A checked count converts to `usize`, so the elements follow.
  parse_elements-collect :
      (k : ℕ) (c : Cursor)
      → k < array_length_limit_exclusive
      → parse_elements decode (pos k) c ≡ continue (collect k decode c) (λ fs. pure (array fs))
  unfolding parse_elements
  parse_elements-collect k c h = ground arith

  pub elements_sound :
      (n : ℤ) (c c' : Cursor) (l : Bytes)
      → d < max_array_depth
      → Denotes l n
      → check_elements child n c ≡ ok tt c'
      → Ensures
          (Decoded (λ x t. Spells d x (b'*' ∷ (line l ++ t))) c c')
          OnlyOther
          (parse_elements decode n c)
  elements_sound (negsuc zero) c c' l h den e =
      unfold parse_elements in
      returns (record {
        text = [];
        spells = spells_null_array l den h (ap (◌∷◌ b'*') (append-nil (line l)));
        took = subst (Took [] c) (null_elements c c' e) (Took-nil c);
        same = null_elements c c' e;
      })
  elements_sound (negsuc (suc m)) c c' l h den e = absurd (elements_negative m c c' e)
  elements_sound (pos k) c c' l h den e = elim (dec_lt k array_length_limit_exclusive) [
    | no many ↦ absurd (elements_many k c c' (omega arith) e)
    | yes few ↦
        let all =
          collect-Decoded k c c' (ap (λ p. p c) (sym (check_elements-repeat child k few)) ∙ e) in
        rw (parse_elements-collect k c few) (
          Ensures-bind all
            (λ fs c₂ _ p. returns (record {
              text = p.text;
              spells =
                  spells_array l p.text (subst (Denotes l) (ap pos (sym p.spells.1)) den) h
                    (omega (arith, p.spells.1)) p.spells.0 refl;
              took = p.took;
              same = p.same;
            }))
            (λ _ _ o. o))
  ]
