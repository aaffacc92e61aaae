-- ===== src/Frame/Tests.antt =====
-- The tests of src/frame.rs: what their assertions ask, and how a run of the parser unfolds.
mod Lines
mod Checks
mod Parses
mod MaxSize
mod Examples
use mini_redis.Prelude.{
  ℕ, zero, suc, ◌≡◌, refl, String, Bool, true, false, ◌&&◌, ◌==◌, List, [], ◌∷◌, ◌++◌,
}
use mini_redis.Prelude.Int.{ℤ, pos, negsuc, checked_mul, checked_add, ◌*ℤ◌, ◌+ℤ◌, checked}
use mini_redis.Text.{Bytes, bytes_eq, codes, from_utf8, is_utf8}
use mini_redis.Buf.{contiguous, Cursor, new_cursor}
use mini_redis.Frame.{
  incomplete, other, simple, error, integer, bulk, array, null, nil, cons, Frame, Frames,
}
use mini_redis.Frame.Reader.{Outcome, ok, err, panicked, out_of_fuel}
use mini_redis.Frame.Line.{get_line, finish_line, scan_line}
use mini_redis.Frame.Number.{get_decimal, decode_decimal, accumulate}
use mini_redis.Frame.Check.{
  check, check_with_depth, check_marked, check_elements, check_bulk, check_payload,
  check_terminator, repeat,
}
use mini_redis.Frame.Parse.{
  parse, parse_data, parse_marked, parse_elements, parse_bulk, parse_string, collect,
}

-- What a run unfolds.
pub opened_number : Unit {0}
unfolding get_decimal decode_decimal accumulate get_line finish_line scan_line checked_mul
    checked_add ◌*ℤ◌ ◌+ℤ◌ checked
opened_number = tt

pub opened_check : Unit {0}
unfolding opened_number check check_with_depth check_marked check_elements check_bulk check_payload
    check_terminator repeat
opened_check = tt

unfoldable pub opened_parse : Unit {0}
unfolding opened_check parse parse_data parse_marked parse_elements parse_bulk parse_string collect
    from_utf8 is_utf8
opened_parse = tt

abbrev pub text : String → Cursor
text s = new_cursor (codes s)

abbrev pub at : String → ℕ → Cursor
at s n = record { contents = codes s; position = n }

-- What the assertions ask of a result and of the position that it leaves.
abbrev pub all_hold : List Bool → Bool
all_hold [] = true
all_hold (b ∷ later) = b && all_hold later

abbrev pub unwraps_to : {A : Type 0} → (A → Bool) → Outcome A → Bool
unwraps_to p (ok a c) = p a
unwraps_to p (err e c) = false
unwraps_to p panicked = false
unwraps_to p out_of_fuel = false

abbrev pub is_ok : {A : Type 0} → Outcome A → Bool
is_ok r = unwraps_to (λ a. true) r

abbrev pub is_incomplete : {A : Type 0} → Outcome A → Bool
is_incomplete (err incomplete c) = true
is_incomplete _ = false

abbrev pub is_other : {A : Type 0} → Outcome A → Bool
is_other (err (other m) c) = true
is_other _ = false

abbrev pub leaves : {A : Type 0} → (Outcome A → Bool) → ℕ → Outcome A → Bool
leaves p n (ok a c) = p (ok a c) && (c.position == n)
leaves p n (err e c) = p (err e c) && (c.position == n)
leaves p n panicked = false
leaves p n out_of_fuel = false

abbrev pub int_eq : ℤ → ℤ → Bool
int_eq (pos a) (pos b) = a == b
int_eq (negsuc a) (negsuc b) = a == b
int_eq _ _ = false

-- `==` of frames.
unfoldable mutual
  pub frame_eq : Frame → Frame → Bool
  frame_eq (simple s) (simple t) = bytes_eq s t
  frame_eq (error s) (error t) = bytes_eq s t
  frame_eq (integer a) (integer b) = int_eq a b
  frame_eq (bulk s) (bulk t) = bytes_eq s t
  frame_eq (array fs) (array gs) = frames_eq fs gs
  frame_eq null null = true
  frame_eq _ _ = false

  pub frames_eq : Frames → Frames → Bool
  frames_eq nil nil = true
  frames_eq (cons x fs) (cons y gs) = frame_eq x y && frames_eq fs gs
  frames_eq _ _ = false

-- `str::repeat`.
abbrev pub repeated : ℕ → Bytes → Bytes
repeated zero s = []
repeated (suc n) s = s ++ repeated n s

-- An array in an array, so many times, around 0.
abbrev pub nested : ℕ → Frame
nested zero = integer (pos 0)
nested (suc n) = array (cons (nested n) nil)
