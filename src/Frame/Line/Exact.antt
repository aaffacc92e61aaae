-- ===== src/Frame/Line/Exact.antt =====
-- What `get_line` reads, and what it refuses.
use mini_redis.Prelude.{
  ℕ, ◌+◌, ◌≤◌, ◌≡◌, refl, sym, ap, ◌∙◌, ◌≢◌, inl, inr, some, [], ◌∷◌, ◌++◌, append_assoc, arith,
  leb, le→leb, ◌==◌, Bool-cases, length, take, drop, All, length-append, take-append,
}
use mini_redis.Text.{Bytes, cr, lf, crlf}
use mini_redis.Config.{usize_max}
use mini_redis.Buf.{Cursor, contiguous, unread, moved, unread-behind}
use mini_redis.Frame.{Error, incomplete, other}
use mini_redis.Frame.Reader.{ok, ◌>>◌}
use mini_redis.Frame.Reader.Contiguous.{skip-moved, unread-fits}
use mini_redis.Frame.Reader.Ensures.{Ensures, returns, fails, Ensures-if}
use mini_redis.Frame.Line.{
  Scan, line_end, scan_error, after_cr, scan_line, slice, finish_line, get_line,
}

-- No byte of the text is a carriage return or a line feed.
abbrev pub IsLine : Bytes → Type 0
IsLine = All (λ b. (b ≢ cr) × (b ≢ lf))

scan_line-IsLine :
    (l rest : Bytes) (i : ℕ)
    → IsLine l
    → scan_line (l ++ (cr ∷ lf ∷ rest)) i ≡ line_end (i + length l)
unfolding scan_line
scan_line-IsLine [] rest i h = ap line_end (omega arith)
scan_line-IsLine (b ∷ l) rest i h = ground (arith, scan_line-IsLine l rest (i + 1) h.1)

record Ends (s : Bytes) (i k : ℕ) : Type 0 where
  line : Bytes
  rest : Bytes
  splits : s ≡ line ++ (cr ∷ lf ∷ rest)
  index_is : k ≡ i + length line
  is_line : IsLine line

after_cr-Ends : (s : Bytes) (i : ℕ) {k : ℕ} → after_cr s i ≡ line_end k → Ends (cr ∷ s) i k
unfolding after_cr
after_cr-Ends [] i h = cc
after_cr-Ends (b ∷ s) i h = record {
  line = [];
  rest = s;
  splits = ground arith;
  index_is = ground arith;
  is_line = tt;
}

Ends-cons : (b : ℕ) {s : Bytes} {i k : ℕ} → b ≢ cr → b ≢ lf → Ends s (i + 1) k → Ends (b ∷ s) i k
Ends-cons b not_cr not_lf e = record {
  line = b ∷ e.line;
  rest = e.rest;
  splits = ap (◌∷◌ b) e.splits;
  index_is = omega (arith, e.index_is);
  is_line = ((not_cr, not_lf), e.is_line);
}

scan_line-Ends : (s : Bytes) (i : ℕ) {k : ℕ} → scan_line s i ≡ line_end k → Ends s i k
unfolding scan_line
scan_line-Ends [] i h = cc
scan_line-Ends (b ∷ s) i {k} h = elim (Bool-cases (b == lf)) [
  | inl is_lf ↦ absurd (ground arith)
  | inr not_lf ↦ elim (Bool-cases (b == cr)) [
    | inl is_cr ↦ let at_cr : b ≡ cr = ground arith in rw at_cr (after_cr-Ends s i (ground arith))
    | inr not_cr ↦
        Ends-cons b (ground arith) (ground arith) (scan_line-Ends s (i + 1) (ground arith))
  ]
]

-- What `get_line` leaves behind a line that it read.
pub record ReadsLine (c : Cursor) (l : Bytes) (c' : Cursor) : Type 0 where
  pub is_line : IsLine l
  pub splits : unread c ≡ l ++ (crlf ++ unread c')
  pub moves : c' ≡ moved c (length l + 2)

abbrev pub IsOther : Error → Type 0
IsOther incomplete = ⊥
IsOther (other m) = Unit

pub slice-take :
    (s : Bytes) (p n : ℕ) → p + n ≤ length s → slice s p (p + n) ≡ some (take n (drop p s))
slice-take s p n h =
    rw (le→leb p (p + n) (omega arith), le→leb (p + n) (length s) h)
      (ap (λ (k : ℕ). some (take k (drop p s))) (omega arith))

finish_line-ok :
    (c : Cursor) (l rest : Bytes)
    → unread c ≡ l ++ (crlf ++ rest)
    → finish_line contiguous (line_end (length l)) c ≡ ok l (moved c (length l + 2))
unfolding finish_line
finish_line-ok c l rest e =
    let long : length (unread c) ≡ length l + (2 + length rest) =
      ap length e ∙ length-append l (crlf ++ rest) ∙ omega arith in
    let room : c.position + (length l + 2) ≤ length c.contents =
      unread-fits c (length l + 2) (omega arith) (omega arith) in
    rw
      (
        slice-take c.contents c.position (length l) (omega arith),
        ◌>>◌,
        skip-moved c (length l + 2) (omega arith),
      )
      (ap (λ (s : Bytes). ok (take (length l) s) (moved c (length l + 2))) e
        ∙ ap (λ (s : Bytes). ok s (moved c (length l + 2))) (take-append l (crlf ++ rest)))

-- A line ahead of the cursor is read whole, and the cursor then stands behind its CRLF.
pub get_line-IsLine :
    (c : Cursor) (l rest : Bytes)
    → c.position ≤ usize_max
    → IsLine l
    → unread c ≡ l ++ (crlf ++ rest)
    → get_line contiguous c ≡ ok l (moved c (length l + 2))
unfolding get_line
get_line-IsLine c l rest fits h e = rw (le→leb c.position usize_max fits) (
    ap (λ (s : Bytes). finish_line contiguous (scan_line s 0) c) e
    ∙ ap (λ r. finish_line contiguous r c) (scan_line-IsLine l rest 0 h ∙ ap line_end (omega arith))
    ∙ finish_line-ok c l rest e)

ReadsLine-moved :
    (c : Cursor) (l rest : Bytes)
    → IsLine l
    → unread c ≡ l ++ (crlf ++ rest)
    → ReadsLine c l (moved c (length l + 2))
ReadsLine-moved c l rest h e =
    let behind : unread (moved c (length l + 2)) ≡ rest =
      ap (λ (n : ℕ). unread (moved c n)) (sym (length-append l crlf))
      ∙ unread-behind c (l ++ crlf) rest (e ∙ sym (append_assoc l crlf rest)) in
    record { is_line = h; splits = rw behind e; moves = refl }

finish_line-Ensures :
    (c : Cursor) (r : Scan)
    → scan_line (unread c) 0 ≡ r
    → Ensures (ReadsLine c) (λ e c'. c' ≡ c) (finish_line contiguous r c)
finish_line-Ensures c (scan_error x) e = unfold finish_line in fails refl
finish_line-Ensures c (line_end k) e =
    let ends = scan_line-Ends (unread c) 0 e in
    let at_end : k ≡ length ends.line = omega (arith, ends.index_is) in
    rw
      (ap (λ (i : ℕ). finish_line contiguous (line_end i) c) at_end
        ∙ finish_line-ok c ends.line ends.rest ends.splits)
      (returns (ReadsLine-moved c ends.line ends.rest ends.is_line ends.splits))

pub get_line-Ensures : (c : Cursor) → Ensures (ReadsLine c) (λ e c'. c' ≡ c) (get_line contiguous c)
unfolding get_line
get_line-Ensures c =
    Ensures-if (leb c.position usize_max) _ _
      (λ _. finish_line-Ensures c (scan_line (unread c) 0) refl) (λ _. fails refl)
