-- ===== src/Frame/Reader/Steady.antt =====
-- Readers whose result no longer depends on what arrives, once it is not that more is needed.
use native.Mathlib.Decide.{dec_le}
use mini_redis.Prelude.{
  ℕ, ◌+◌, ◌≤◌, ◌<◌, arith, length, [], ◌∷◌, ◌++◌, refl, ap, ◌∙◌, length-append, length-drop, ◌≡◌,
  Bool, true, false, Option, none, some, String, if◌then◌else◌,
}
use mini_redis.Text.{Bytes}
use mini_redis.Buf.{Cursor, extended, IsInside, contiguous, unread, moved, unread-extended}
use mini_redis.Frame.{incomplete, other}
use mini_redis.Frame.Reader.{
  Outcome, ok, err, panicked, out_of_fuel, Reader, pure, raise, continue, ◌>>=◌, or_other, or_panic,
  read_u8, skip,
}
use mini_redis.Frame.Reader.Contiguous.{read_u8-ahead, skip-moved}

-- How a result may change as `more` arrives: a value and a refusal stay; the want of more input may
-- turn into anything.
pub data Extends {ℓ} {A : Type ℓ} (more : Bytes) : Outcome A → Outcome A → Type ℓ where
  value_stays : {a : A} {c : Cursor} → IsInside c → Extends more (ok a c) (ok a (extended c more))
  refusal_stays :
      {m : String} {c : Cursor} → Extends more (err (other m) c) (err (other m) (extended c more))
  waits : {c : Cursor} {r : Outcome A} → Extends more (err incomplete c) r
  panics : {r : Outcome A} → Extends more panicked r
  starves : {r : Outcome A} → Extends more out_of_fuel r

abbrev pub Steady {ℓ} : {A : Type ℓ} → Reader A → Type ℓ
Steady m = (more : Bytes) (c : Cursor) → IsInside c → Extends more (m c) (m (extended c more))

module _ {ℓ κ} {A : Type ℓ} {B : Type κ} where
  -- The equation tells the continuation what the first run returned.
  pub Extends-continue :
      {more : Bytes} {r r' : Outcome A} {f : A → Reader B}
      → Extends more r r'
      → ((a : A) (c : Cursor)
          → r ≡ ok a c
          → IsInside c
          → Extends more (f a c) (f a (extended c more)))
      → Extends more (continue r f) (continue r' f)
  Extends-continue (value_stays {a} {c} h) k = k a c refl h
  Extends-continue refusal_stays k = refusal_stays
  Extends-continue waits k = waits
  Extends-continue panics k = panics
  Extends-continue starves k = starves

  pub Steady-bind :
      (m : Reader A) (f : A → Reader B) → Steady m → ((a : A) → Steady (f a)) → Steady (m >>= f)
  Steady-bind m f hm hf more c h = Extends-continue (hm more c h) (λ a c' _ h'. hf a more c' h')

module _ {ℓ} {A : Type ℓ} where
  pub Steady-pure : (a : A) → Steady (pure a)
  Steady-pure a more c h = value_stays h

  pub Steady-other : (m : String) → Steady (raise {A = A} (other m))
  Steady-other m more c h = refusal_stays

  pub Steady-or_other : (o : Option A) (m : String) → Steady (or_other o m)
  Steady-or_other none m more c h = refusal_stays
  Steady-or_other (some a) m more c h = value_stays h

  pub Steady-or_panic : (o : Option A) → Steady (or_panic o)
  Steady-or_panic none more c h = panics
  Steady-or_panic (some a) more c h = value_stays h

  pub Steady-if : (b : Bool) (x y : Reader A) → Steady x → Steady y → Steady (if b then x else y)
  Steady-if true x y hx hy = hx
  Steady-if false x y hx hy = hy

-- What lies ahead, as more arrives.
pub ahead-extended :
    (c : Cursor) (more : Bytes)
    → IsInside c
    → length (unread (extended c more)) ≡ length (unread c) + length more
ahead-extended c more h = ap length (unread-extended c more h) ∙ length-append (unread c) more

moved-IsInside : (c : Cursor) (n : ℕ) → IsInside c → n ≤ length (unread c) → IsInside (moved c n)
moved-IsInside c n h room = omega (arith, length-drop c.position c.contents)

-- The calls of the crate.
read_u8-nil : (c : Cursor) → unread c ≡ [] → read_u8 contiguous c ≡ panicked
read_u8-nil c e = rw (read_u8, e)

skip-short : (c : Cursor) (n : ℕ) → length (unread c) < n → skip contiguous n c ≡ panicked
skip-short c n h = ground arith

pub read_u8-Steady : Steady (read_u8 contiguous)
read_u8-Steady more c h = go (unread c) refl
  where
    go :
        (s : Bytes)
        → unread c ≡ s
        → Extends more (read_u8 contiguous c) (read_u8 contiguous (extended c more))
    go [] e = rw (read_u8-nil c e) panics
    go (b ∷ s) e =
        let later : unread (extended c more) ≡ b ∷ (s ++ more) =
          unread-extended c more h ∙ ap (λ t. t ++ more) e in
        rw (read_u8-ahead c b s e, read_u8-ahead (extended c more) b (s ++ more) later)
          (value_stays (moved-IsInside c 1 h (omega (arith, ap length e))))

pub skip-Steady : (n : ℕ) → Steady (skip contiguous n)
skip-Steady n more c h = elim (dec_le n (length (unread c))) [
  | yes room ↦
      rw
        (
          skip-moved c n room,
          skip-moved (extended c more) n (omega (arith, ahead-extended c more h)),
        )
        (value_stays (moved-IsInside c n h room))
  | no short ↦ rw (skip-short c n (omega arith)) panics
]
