-- ===== src/Frame/Grammar/Reads.antt =====
-- Readers that take a known text off the front of any input.
use mini_redis.Prelude.{
  ℕ, ◌+◌, ◌≤◌, ◌≡◌, sym, ap, ◌∙◌, subst, some, [], ◌∷◌, ◌++◌, append_assoc, append-nil, arith,
  le→leb, length, length-append, length-drop, take, take-append,
}
use mini_redis.Prelude.Int.{ℤ, pos}
use mini_redis.Text.{Bytes, crlf}
use mini_redis.Text.Decimal.{Denotes}
use mini_redis.Config.{usize_max}
use mini_redis.Buf.{Cursor, contiguous, unread, moved, moved-moved, unread-behind}
use mini_redis.Frame.{bulk}
use mini_redis.Frame.Reader.{ok, Reader, pure, continue, ◌>>=◌, read_u8}
use mini_redis.Frame.Reader.Contiguous.{read_u8-ahead}
use mini_redis.Frame.Line.{get_line, slice}
use mini_redis.Frame.Line.Exact.{IsLine, get_line-IsLine}
use mini_redis.Frame.Number.{get_decimal}
use mini_redis.Frame.Number.Exact.{get_decimal-Denotes}
use mini_redis.Frame.Check.{check_bulk}
use mini_redis.Frame.Check.Payload.{check_payload-Payload, check_bulk_pos}
use mini_redis.Frame.Parse.{parse_bulk}
use mini_redis.Frame.Grammar.{line}

-- Over contents that fit the address space, `p` reads `a` off `s` and leaves what follows.
pub record Reads {ℓ} {A : Type ℓ} (p : Reader A) (s : Bytes) (a : A) : Type ℓ where
  pub at :
      (c : Cursor) (rest : Bytes)
      → length c.contents ≤ usize_max
      → unread c ≡ s ++ rest
      → p c ≡ ok a (moved c (length s))

module _ {ℓ} {A : Type ℓ} where
  pub Reads-text : {p : Reader A} {s t : Bytes} {a : A} → s ≡ t → Reads p s a → Reads p t a
  Reads-text {p} {a = a} e r = subst (λ u. Reads p u a) e r

  pub Reads-pure : (a : A) → Reads (pure a) [] a
  Reads-pure a = record {
    at = λ c rest fits e. ap (λ (n : ℕ). ok a (record c { position = n })) (omega arith);
  }

module _ {ℓ κ} {A : Type ℓ} {B : Type κ} where
  pub Reads-bind :
      {p : Reader A} (f : A → Reader B) {s t : Bytes} {a : A} {b : B}
      → Reads p s a
      → Reads (f a) t b
      → Reads (p >>= f) (s ++ t) b
  Reads-bind {p} f {s} {t} {a} {b} r q = record {
    at = λ c rest fits e.
        let ahead : unread c ≡ s ++ (t ++ rest) = e ∙ append_assoc s t rest in
        let more : unread (moved c (length s)) ≡ t ++ rest = unread-behind c s (t ++ rest) ahead in
        ap (λ x. continue x f) (r.at c (t ++ rest) fits ahead)
        ∙ q.at (moved c (length s)) rest fits more
        ∙ ap (ok b) (moved-moved c (length s) (length t) ∙ ap (moved c) (sym (length-append s t)));
  }

  -- A result that takes no more input.
  pub Reads-last :
      {p : Reader A} (f : A → Reader B) {s : Bytes} {a : A} {b : B}
      → Reads p s a
      → Reads (f a) [] b
      → Reads (p >>= f) s b
  Reads-last f {s} r q = Reads-text (append-nil s) (Reads-bind f r q)

position-fits :
    (c : Cursor) (b : ℕ) (s : Bytes)
    → length c.contents ≤ usize_max
    → unread c ≡ b ∷ s
    → c.position ≤ usize_max
position-fits c b s fits e = omega (arith, ap length e, length-drop c.position c.contents)

pub read_u8-Reads : (b : ℕ) → Reads (read_u8 contiguous) (b ∷ []) b
read_u8-Reads b = record { at = λ c rest fits e. read_u8-ahead c b rest e }

unread-position :
    (c : Cursor) (l rest : Bytes)
    → length c.contents ≤ usize_max
    → unread c ≡ l ++ (crlf ++ rest)
    → c.position ≤ usize_max
unread-position c [] rest fits e = position-fits c 13 (10 ∷ rest) fits e
unread-position c (b ∷ l) rest fits e = position-fits c b (l ++ (crlf ++ rest)) fits e

pub get_line-Reads : (l : Bytes) → IsLine l → Reads (get_line contiguous) (line l) l
get_line-Reads l h = record {
  at = λ c rest fits e.
      let ahead : unread c ≡ l ++ (crlf ++ rest) = e ∙ append_assoc l crlf rest in
      get_line-IsLine c l rest (unread-position c l rest fits ahead) h ahead
      ∙ ap (λ n. ok l (moved c n)) (sym (length-append l crlf));
}

pub get_decimal-Reads :
    (l : Bytes) (z : ℤ) → Denotes l z → Reads (get_decimal contiguous) (line l) z
get_decimal-Reads l z d = record {
  at = λ c rest fits e.
      let ahead : unread c ≡ l ++ (crlf ++ rest) = e ∙ append_assoc l crlf rest in
      get_decimal-Denotes c l rest z (unread-position c l rest fits ahead) d ahead
      ∙ ap (λ n. ok z (moved c n)) (sym (length-append l crlf));
}

pub check_bulk-Reads :
    (s : Bytes)
    → length s + 2 ≤ usize_max
    → Reads (check_bulk contiguous (pos (length s))) (line s) tt
check_bulk-Reads s small = record {
  at = λ c rest fits e.
      let ahead : unread c ≡ s ++ (crlf ++ rest) = e ∙ append_assoc s crlf rest in
      check_bulk_pos (length s) c
      ∙ check_payload-Payload c s rest small ahead
      ∙ ap (λ n. ok tt (moved c n)) (sym (length-append s crlf));
}

pub slice-prefix : (u : Bytes) (n : ℕ) → n ≤ length u → slice u 0 n ≡ some (take n u)
slice-prefix u n h =
    rw (le→leb 0 n (omega arith), le→leb n (length u) h)
      (ap (λ (k : ℕ). some (take k u)) (omega arith))

-- The payload and the two bytes behind it are taken without a look at those two.
pub parse_bulk_ahead :
    (c : Cursor) (k : ℕ)
    → k + 2 ≤ usize_max
    → k + 2 ≤ length (unread c)
    → parse_bulk contiguous (pos k) c ≡ ok (bulk (take k (unread c))) (moved c (k + 2))
unfolding parse_bulk
parse_bulk_ahead c k small room = ground (arith, slice-prefix (unread c) k)

pub parse_bulk-Reads :
    (s : Bytes)
    → length s + 2 ≤ usize_max
    → Reads (parse_bulk contiguous (pos (length s))) (line s) (bulk s)
parse_bulk-Reads s small = record {
  at = λ c rest fits e.
      let ahead : unread c ≡ s ++ (crlf ++ rest) = e ∙ append_assoc s crlf rest in
      let long : length (unread c) ≡ length s + (2 + length rest) =
        ap length ahead ∙ length-append s (crlf ++ rest) ∙ omega arith in
      parse_bulk_ahead c (length s) small (omega arith)
      ∙ ap (λ (u : Bytes). ok (bulk (take (length s) u)) (moved c (length s + 2))) ahead
      ∙ ap (λ (u : Bytes). ok (bulk u) (moved c (length s + 2))) (take-append s (crlf ++ rest))
      ∙ ap (λ n. ok (bulk s) (moved c n)) (sym (length-append s crlf));
}
