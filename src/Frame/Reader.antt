-- ===== src/Frame/Reader.antt =====
-- Functions over `&mut Cursor<&[u8]>` that may fail, as actions: a result comes with the cursor
-- that the call leaves, also on an error. `panicked` is a Rust panic (a read or a slice past the
-- end); `out_of_fuel` has no counterpart in the program.
use mini_redis.Prelude.{ℕ, ◌+◌, String, Option, none, some, leb, if◌then◌else◌}
pub mod Ensures
pub mod Contiguous
pub mod Steady
use mini_redis.Prelude.Int.{ℤ, pos, negsuc}
use mini_redis.Config.{usize_max}
use mini_redis.Buf.{Cursor, BufOps}
use mini_redis.Frame.{Error, other}

pub data Outcome {ℓ} (A : Type ℓ) : Type ℓ where
  ok : A → Cursor → Outcome A
  err : Error → Cursor → Outcome A
  panicked out_of_fuel : Outcome A

abbrev pub Reader {ℓ} : Type ℓ → Type ℓ
Reader A = Cursor → Outcome A

abbrev pub pure {ℓ} : {A : Type ℓ} → A → Reader A
pure a c = ok a c

abbrev pub raise {ℓ} : {A : Type ℓ} → Error → Reader A
raise e c = err e c

module _ {ℓ κ} {A : Type ℓ} {B : Type κ} where
  abbrev pub continue : Outcome A → (A → Reader B) → Outcome B
  continue (ok a c) f = f a c
  continue (err e c) f = err e c
  continue panicked f = panicked
  continue out_of_fuel f = out_of_fuel

  infixl 5 ◌>>=◌ ◌>>◌
  abbrev pub ◌>>=◌ : Reader A → (A → Reader B) → Reader B
  ◌>>=◌ m f c = continue (m c) f

  abbrev pub ◌>>◌ : Reader A → Reader B → Reader B
  ◌>>◌ m k c = continue (m c) (λ _. k)

-- A slice or a read that panics out of range.
abbrev pub or_panic {ℓ} : {A : Type ℓ} → Option A → Reader A
or_panic none c = panicked
or_panic (some a) c = ok a c

-- `.map_err(|_| Error::Other(message))?` and `.ok_or(Error::Other(message))?`.
abbrev pub or_other {ℓ} : {A : Type ℓ} → Option A → String → Reader A
or_other none message c = err (other message) c
or_other (some a) message c = ok a c

module _ (ops : BufOps) where
  -- `src.get_u8()` and `src.advance(n)` on the cursor.
  abbrev pub read_u8 : Reader ℕ
  read_u8 c = elim (ops.get_u8 c) [ none ↦ panicked | some (b, c') ↦ ok b c' ]

  abbrev pub skip : ℕ → Reader (Unit {0})
  skip n c = elim (ops.advance c n) [ none ↦ panicked | some c' ↦ ok tt c' ]

-- `usize::try_from` of an `i64`, and `usize::checked_add`.
abbrev pub usize_try_from : ℤ → Option ℕ
usize_try_from (pos n) = if leb n usize_max then some n else none
usize_try_from (negsuc n) = none

abbrev pub usize_checked_add : ℕ → ℕ → Option ℕ
usize_checked_add a b = if leb (a + b) usize_max then some (a + b) else none
