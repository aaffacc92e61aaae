-- ===== src/Frame/Grammar/Extend.antt =====
-- The bytes of a frame, and bytes that arrive behind them.
use mini_redis.Prelude.{
  ℕ, ◌+◌, ◌≤◌, ◌≡◌, refl, sym, ap, ◌∙◌, ◌≢◌, arith, length, length-append, length-drop,
  append_assoc, [], ◌∷◌, ◌++◌,
}
use mini_redis.Text.{Bytes}
use mini_redis.Buf.{Cursor, unread, extended, unread-extended}
use mini_redis.Frame.{Frame}
use mini_redis.Frame.Grammar.{
  Spells, spells_simple, spells_error, spells_integer, spells_bulk, spells_null_bulk,
  spells_null_array, spells_array,
}
use mini_redis.Frame.Grammar.Took.{Took}

pub Spells-nonempty : {d : ℕ} {x : Frame} → ¬ Spells d x []
Spells-nonempty (spells_simple l u e) = cc
Spells-nonempty (spells_error l u e) = cc
Spells-nonempty (spells_integer l den e) = cc
Spells-nonempty (spells_bulk l den small e) = cc
Spells-nonempty (spells_null_bulk l den e) = cc
Spells-nonempty (spells_null_array l den shallow e) = cc
Spells-nonempty (spells_array l u den shallow few all e) = cc

Took-within : (t : Bytes) (c c' : Cursor) → t ≢ [] → Took t c c' → c'.position ≤ length c.contents
Took-within [] c c' ne took = absurd (ne refl)
Took-within (b ∷ t) c c' ne took =
    let at_end : c'.position ≡ c.position + length (b ∷ t) = ap (λ x. x.position) took.moves in
    omega (
      arith,
      at_end,
      ap length took.splits ∙ length-append (b ∷ t) (unread c'),
      length-drop c.position c.contents,
    )

pub Took-extended :
    (t : Bytes) (c c' : Cursor) (more : Bytes)
    → t ≢ []
    → Took t c c'
    → Took t (extended c more) (extended c' more)
Took-extended t c c' more ne took =
    let within : c'.position ≤ length c.contents = Took-within t c c' ne took in
    let start : c.position + length t ≡ c'.position = sym (ap (λ x. x.position) took.moves) in
    let same : length c'.contents ≡ length c.contents = ap (λ x. length x.contents) took.moves in
    record {
      splits =
          unread-extended c more (omega arith)
          ∙ ap (λ s. s ++ more) took.splits
          ∙ append_assoc t (unread c') more
          ∙ ap (λ s. t ++ s) (sym (unread-extended c' more (omega arith)));
      moves = ap (λ x. extended x more) took.moves;
    }
