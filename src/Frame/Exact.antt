-- ===== src/Frame/Exact.antt =====
-- `Frame::check` and `Frame::parse` as a whole, over any functions that do what the crate `bytes`
-- documents.
use mini_redis.Prelude.{
  ◌+◌, ◌≤◌, ◌≡◌, refl, sym, ap, ◌∙◌, subst, ◌≢◌, ◌↔◌, ◌⊎◌, inl, inr, String, arith, length,
  length-append,
}
use mini_redis.Text.{Bytes}
use mini_redis.Config.{usize_max, max_array_depth}
use mini_redis.Buf.{extended, Cursor, BufOps, IsBuf, IsBuf-unique, contiguous, unread, moved}
use mini_redis.Frame.{Frame, Error, incomplete, other}
use mini_redis.Frame.Reader.{Outcome, ok, err, panicked, out_of_fuel, continue}
use mini_redis.Frame.Reader.Ensures.{
  Ensures, returns, fails, Ensures-ok, Ensures-map, Ensures-ne-panicked, Ensures-ne-out_of_fuel,
}
use mini_redis.Frame.Check.{check}
use mini_redis.Frame.Parse.{parse, parse_data}
use mini_redis.Frame.Grammar.{Spells}
use mini_redis.Frame.Grammar.Took.{Took}
use mini_redis.Frame.Grammar.Extend.{Took-extended, Spells-nonempty}
use mini_redis.Frame.Grammar.Accept.{check-Spells}
use mini_redis.Frame.Grammar.Decode.{parse_data-Spells}
use mini_redis.Frame.Grammar.Sound.{check_with_depth-Decoded}
use mini_redis.Frame.Grammar.Leaves.{Decoded, OnlyOther}
use mini_redis.Frame.Grammar.Total.{TookSome, Moves, check_with_depth-Moves}

check-Moves : (c : Cursor) → Moves c (check contiguous c)
unfolding check
check-Moves c = check_with_depth-Moves (max_array_depth + 1) 0 c (omega arith) (omega arith)

-- Put back to its start, the cursor of a check that succeeded is the one that it began with.
parse-checked :
    (c c' : Cursor)
    → check contiguous c ≡ ok tt c'
    → parse contiguous c ≡ parse_data contiguous (max_array_depth + 1) c
unfolding parse
parse-checked c c' e =
    let (t, took) : TookSome c c' = Ensures-ok (check-Moves c) e in
    ap
      (λ o.
        continue o
          (λ _ x. parse_data contiguous (max_array_depth + 1) (record x { position = c.position })))
      e
    ∙ ap (λ x. parse_data contiguous (max_array_depth + 1) (record x { position = c.position }))
        took.moves

parse-refused :
    (c c' : Cursor) (x : Error) → check contiguous c ≡ err x c' → parse contiguous c ≡ err x c'
unfolding parse
parse-refused c c' x e =
    ap
      (λ o.
        continue o
          (λ _ x. parse_data contiguous (max_array_depth + 1) (record x { position = c.position })))
      e

parse-Decoded :
    (c c' : Cursor)
    → check contiguous c ≡ ok tt c'
    → Ensures (Decoded (Spells 0) c c') OnlyOther (parse contiguous c)
parse-Decoded c c' e =
    rw (parse-checked c c' e)
      (check_with_depth-Decoded (max_array_depth + 1) 0 c c' (unfold check in e))

abbrev Spelled : Cursor → Frame → Cursor → Type 0
Spelled c x c' = (t : Bytes) × Spells 0 x t × Took t c c'

parse-Ensures : (c : Cursor) → Ensures (Spelled c) (λ _ _. Unit {0}) (parse contiguous c)
parse-Ensures c = go (check contiguous c) refl (check-Moves c)
  where
    go :
        (r : Outcome (Unit {0}))
        → check contiguous c ≡ r
        → Moves c r
        → Ensures (Spelled c) (λ _ _. Unit {0}) (parse contiguous c)
    go (ok u c') e (returns h) =
        Ensures-map (parse-Decoded c c' e)
          (λ x c₁ d. (d.text, d.spells, subst (Took d.text c) (sym d.same) d.took)) (λ _ _ _. tt)
    go (err x c') e (fails h) = rw (parse-refused c c' x e) (fails tt)
    go panicked e h = elim h [ ]
    go out_of_fuel e h = elim h [ ]

-- For any input and position, `parse` returns a frame or an error: it never panics, and the depth
-- limit stops its recursion.
pub parse_total :
    (ops : BufOps)
    → IsBuf ops
    → (c : Cursor) → (parse ops c ≢ panicked) × (parse ops c ≢ out_of_fuel)
parse_total ops laws c =
    rw (IsBuf-unique laws)
      (Ensures-ne-panicked (parse-Ensures c), Ensures-ne-out_of_fuel (parse-Ensures c))

-- Over contents that fit the address space, `parse` returns a frame and leaves the cursor at a
-- position exactly when the bytes between the two positions spell that frame in the grammar.
pub parse-Spells_iff :
    (ops : BufOps)
    → IsBuf ops
    → (c : Cursor) → length c.contents ≤ usize_max
    → (x : Frame) (c' : Cursor)
    → (parse ops c ≡ ok x c') ↔ ((t : Bytes) × Spells 0 x t × Took t c c')
parse-Spells_iff ops laws c fits x c' =
    rw (IsBuf-unique laws) (λ e. Ensures-ok (parse-Ensures c) e, λ (t, s, took). complete t s took)
  where
    complete : (t : Bytes) → Spells 0 x t → Took t c c' → parse contiguous c ≡ ok x c'
    complete t s took =
        let checked : check contiguous c ≡ ok tt (moved c (length t)) =
          unfold check in
          (check-Spells (max_array_depth + 1) 0 s (omega arith) (omega arith)).at c (unread c') fits
            took.splits in
        parse-checked c (moved c (length t)) checked
        ∙ (parse_data-Spells (max_array_depth + 1) 0 s (omega arith) (omega arith)).at c (unread c')
            fits took.splits
        ∙ ap (ok x) (sym took.moves)

-- Where the structural check succeeds, `parse` returns a frame and leaves the cursor where the
-- check did, or it refuses the contents; it does not ask for more input.
pub parse-check :
    (ops : BufOps)
    → IsBuf ops
    → (c c' : Cursor) → check ops c ≡ ok tt c'
    → ((x : Frame) × (parse ops c ≡ ok x c'))
      ⊎ ((m : String) × (c₁ : Cursor) × (parse ops c ≡ err (other m) c₁))
parse-check ops laws =
    subst
      (λ o.
        (c c' : Cursor)
        → check o c ≡ ok tt c'
        → ((x : Frame) × (parse o c ≡ ok x c'))
          ⊎ ((m : String) × (c₁ : Cursor) × (parse o c ≡ err (other m) c₁)))
      (sym (IsBuf-unique laws)) (λ c c' e. go c c' (parse contiguous c) refl (parse-Decoded c c' e))
  where
    go :
        (c c' : Cursor) (r : Outcome Frame)
        → parse contiguous c ≡ r
        → Ensures (Decoded (Spells 0) c c') OnlyOther r
        → ((x : Frame) × (parse contiguous c ≡ ok x c'))
          ⊎ ((m : String) × (c₁ : Cursor) × (parse contiguous c ≡ err (other m) c₁))
    go c c' (ok x c₁) e (returns d) = inl (x, e ∙ ap (ok x) d.same)
    go c c' (err (other m) c₁) e (fails h) = inr (m, c₁, e)
    go c c' (err incomplete c₁) e (fails h) = absurd h
    go c c' panicked e h = elim h [ ]
    go c c' out_of_fuel e h = elim h [ ]

-- A frame that `parse` has returned is returned too, with the same end, when more bytes follow.
pub parse-extended :
    (ops : BufOps)
    → IsBuf ops
    → (c c' : Cursor) (more : Bytes) (x : Frame) → length c.contents + length more ≤ usize_max
    → parse ops c ≡ ok x c'
    → parse ops (extended c more) ≡ ok x (extended c' more)
parse-extended ops laws c c' more x fits e =
    let (t, s, took) = (parse-Spells_iff ops laws c (omega arith) x c').0 e in
    (parse-Spells_iff ops laws (extended c more) (omega (arith, length-append c.contents more)) x
        (extended c' more)).1
      (t, s, Took-extended t c c' more (λ e₁. Spells-nonempty (subst (Spells 0 x) e₁ s)) took)
