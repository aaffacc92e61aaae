-- ===== src/Frame/Grammar/Took.antt =====
-- What lies between two positions of a cursor.
use mini_redis.Prelude.{
  ℕ, ◌+◌, ◌≤◌, ◌≡◌, refl, sym, ap, ◌∙◌, [], ◌++◌, append_assoc, arith, length, length-append, take,
  take-append,
}
use mini_redis.Text.{Bytes, crlf}
use mini_redis.Buf.{Cursor, unread, moved, moved-moved, unread-behind}
use mini_redis.Frame.Line.Exact.{ReadsLine}
use mini_redis.Frame.Check.Payload.{Payload}
use mini_redis.Frame.Grammar.{line}

-- From `c` to `c'` the cursor passes over `t`.
pub record Took (t : Bytes) (c c' : Cursor) : Type 0 where
  pub splits : unread c ≡ t ++ unread c'
  pub moves : c' ≡ moved c (length t)

pub Took-nil : (c : Cursor) → Took [] c c
Took-nil c = record {
  splits = refl;
  moves = ap (λ (n : ℕ). record c { position = n }) (omega arith);
}

pub Took-trans : {s t : Bytes} {a b c : Cursor} → Took s a b → Took t b c → Took (s ++ t) a c
Took-trans {s} {t} {a} {b} {c} p q = record {
  splits = p.splits ∙ ap (◌++◌ s) q.splits ∙ sym (append_assoc s t (unread c));
  moves =
      q.moves
      ∙ ap (λ x. moved x (length t)) p.moves
      ∙ moved-moved a (length s) (length t)
      ∙ ap (moved a) (sym (length-append s t));
}

pub Took-ahead :
    (c : Cursor) (t rest : Bytes) → unread c ≡ t ++ rest → Took t c (moved c (length t))
Took-ahead c t rest e = record {
  splits = e ∙ ap (◌++◌ t) (sym (unread-behind c t rest e));
  moves = refl;
}

Took-line :
    (c c' : Cursor) (l rest : Bytes)
    → unread c ≡ l ++ (crlf ++ rest)
    → c' ≡ moved c (length l + 2)
    → Took (line l) c c'
Took-line c c' l rest e m =
    rw (m ∙ ap (moved c) (sym (length-append l crlf)))
      (Took-ahead c (line l) rest (e ∙ sym (append_assoc l crlf rest)))

pub ReadsLine-Took : {c c' : Cursor} {l : Bytes} → ReadsLine c l c' → Took (line l) c c'
ReadsLine-Took {c} {c'} {l} r = Took-line c c' l (unread c') r.splits r.moves

pub Payload-Took : {c c' : Cursor} {k : ℕ} (p : Payload c k c') → Took (line p.payload) c c'
Payload-Took {c} {c'} {k} p =
    Took-line c c' p.payload p.rest p.splits
      (p.moves ∙ ap (λ (n : ℕ). moved c (n + 2)) (sym p.size_is))

-- What `parse_bulk` takes is the payload.
pub Payload-take : {c c' : Cursor} {k : ℕ} (p : Payload c k c') → take k (unread c) ≡ p.payload
Payload-take {c} {c'} {k} p =
    ap (λ (n : ℕ). take n (unread c)) (sym p.size_is)
    ∙ ap (take (length p.payload)) p.splits
    ∙ take-append p.payload (crlf ++ p.rest)

pub Payload-room : {c c' : Cursor} {k : ℕ} → Payload c k c' → k + 2 ≤ length (unread c)
Payload-room {c} {c'} {k} p =
    omega (arith, p.size_is, ap length p.splits ∙ length-append p.payload (crlf ++ p.rest))
