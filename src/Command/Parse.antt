-- ===== src/Command/Parse.antt =====
-- src/parse.rs: the arguments of a command, taken off an array frame one by one.
pub mod Exact
use mini_redis.Prelude.{◌≡◌, String, Option, none, some}
use mini_redis.Text.{Bytes, codes, from_utf8}
use mini_redis.Frame.{Frame, Frames, simple, error, integer, bulk, array, null, nil, cons}

-- `parse::Error`.
pub data Error : Type 0 where
  end_of_stream : Error
  other : String → Error

-- `Display` of `parse::Error`.
unfoldable pub error_text : Error → Bytes
error_text end_of_stream = codes "No more command arguments"
error_text (other message) = codes message

pub data Result {ℓ} (A : Type ℓ) : Type ℓ where
  ok : A → Result A
  err : Error → Result A

-- `Parse`: the elements that are left. A method of `&mut Parse` returns them beside its result.
pub record Arguments : Type 0 where
  pub parts : Frames

abbrev pub Taking {ℓ} : Type ℓ → Type ℓ
Taking A = Arguments → Result A × Arguments

module _ {ℓ κ} {A : Type ℓ} {B : Type κ} where
  abbrev pub continue : Result A × Arguments → (A → Taking B) → Result B × Arguments
  continue (ok a, p) f = f a p
  continue (err e, p) f = (err e, p)

  infixl 5 ◌>>=◌ ◌>>◌
  abbrev pub ◌>>=◌ : Taking A → (A → Taking B) → Taking B
  ◌>>=◌ m f p = continue (m p) f

  abbrev pub ◌>>◌ : Taking A → Taking B → Taking B
  ◌>>◌ m k p = continue (m p) (λ _. k)

abbrev pub pure {ℓ} : {A : Type ℓ} → A → Taking A
pure a p = (ok a, p)

abbrev pub raise {ℓ} : {A : Type ℓ} → Error → Taking A
raise e p = (err e, p)

-- `Parse::from_frame`.
unfoldable pub from_frame : Frame → Result Arguments
from_frame (array fs) = ok (record { parts = fs })
from_frame _ = err (other "Expected an array frame")

unfoldable pub bytes_of : Frame → Result Bytes
bytes_of (bulk s) = ok s
bytes_of (simple s) = ok s
bytes_of _ = err (other "Expected a bulk or simple string argument")

-- An argument of another type is consumed too.
unfoldable pub next_bytes_of : Frames → Result Bytes × Arguments
unfolding bytes_of
next_bytes_of nil = (err end_of_stream, record { parts = nil })
next_bytes_of (cons x rest) = (bytes_of x, record { parts = rest })

unfoldable pub next_bytes : Taking Bytes
unfolding next_bytes_of
next_bytes p = next_bytes_of p.parts

-- The conversion in `next_string`.
unfoldable pub text_of : Option Bytes → Taking Bytes
text_of none = raise (other "Argument is not valid UTF-8")
text_of (some string) = pure string

unfoldable pub next_string : Taking Bytes
next_string = do bytes ← next_bytes; text_of (from_utf8 bytes)

unfoldable pub finish_of : Frames → Result (Unit {0}) × Arguments
finish_of nil = (ok tt, record { parts = nil })
finish_of (cons x rest) = (err (other "Unexpected extra argument"), record { parts = rest })

unfoldable pub finish : Taking (Unit {0})
unfolding finish_of
finish p = finish_of p.parts
