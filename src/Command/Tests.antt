-- ===== src/Command/Tests.antt =====
-- The tests of src/parse.rs and of src/command.rs.
use mini_redis.Prelude.{◌≡◌, refl, Bool, true, false, ◌&&◌, Option, none, some, [], ◌∷◌}
use mini_redis.Prelude.Int.{pos}
use mini_redis.Text.{codes, bytes_eq, is_utf8, from_utf8, eq_ignore_ascii_case, to_ascii_lowercase}
use mini_redis.Frame.{Frame, Frames, simple, error, integer, bulk, array, null, nil, cons}
use mini_redis.Frame.Tests.{all_hold, frame_eq}
use mini_redis.Database
use mini_redis.Database.{Database, new_database, lookup, insert, lock}
use mini_redis.Command.{
  Command, get, set, get_from_parse, set_from_parse, select, from_arguments, from_frame, apply,
}
use mini_redis.Command.Parse.{
  end_of_stream, other, Result, ok, err, Arguments, next_bytes, next_bytes_of, bytes_of, text_of,
  next_string, finish, finish_of,
}
use mini_redis.Command.Parse

-- `Parse::new_test`.
abbrev new_test : Frames → Arguments
new_test frames = record { parts = frames }

abbrev unwraps_to : {A : Type 0} → (A → Bool) → Result A → Bool
unwraps_to p (ok a) = p a
unwraps_to p (err e) = false

abbrev is_ok : {A : Type 0} → Result A → Bool
is_ok r = unwraps_to (λ a. true) r

abbrev is_other : {A : Type 0} → Result A → Bool
is_other (err (other m)) = true
is_other _ = false

abbrev is_end_of_stream : {A : Type 0} → Result A → Bool
is_end_of_stream (err end_of_stream) = true
is_end_of_stream _ = false

abbrev test_parse_from_frame : Bool
test_parse_from_frame = all_hold (
    is_ok (Parse.from_frame (array (cons (bulk (codes "Answer")) (cons (bulk (codes "42")) nil))))
    ∷ is_other (Parse.from_frame null)
    ∷ [])

-- `Parse::from_frame(...).unwrap()`.
abbrev unwrapped : Result Arguments → Arguments
unwrapped (ok p) = p
unwrapped (err e) = new_test nil

abbrev test_parse_next_bytes : Bool
test_parse_next_bytes =
    let parser = unwrapped (
      Parse.from_frame (
        array (
          cons (bulk (codes "Hello, ")) (
            cons (simple (codes "World!")) (
              cons (array (cons (integer (pos 137)) (cons (error (codes "HTTP 504")) nil)))
                nil))))) in
    let (bulk_result, parser₁) = next_bytes parser in
    let (simple_result, parser₂) = next_bytes parser₁ in
    let (invalid_result, parser₃) = next_bytes parser₂ in
    let (exhausted_result, parser₄) = next_bytes parser₃ in
    all_hold (
      unwraps_to (bytes_eq (codes "Hello, ")) bulk_result
      ∷ unwraps_to (bytes_eq (codes "World!")) simple_result
      ∷ is_other invalid_result
      ∷ is_end_of_stream exhausted_result
      ∷ [])

test_parse_next_bytes_passes : test_parse_next_bytes ≡ true
unfolding Parse.from_frame next_bytes next_bytes_of bytes_of bytes_eq
test_parse_next_bytes_passes = refl

test_parse_from_frame_passes : test_parse_from_frame ≡ true
unfolding Parse.from_frame
test_parse_from_frame_passes = refl

abbrev test_parse_next_string : Bool
test_parse_next_string =
    let parser = unwrapped (
      Parse.from_frame (
        array (
          cons (bulk (codes "Hello, "))
            (cons (simple (codes "Tokio!")) (cons (bulk (245 ∷ 255 ∷ [])) nil))))) in
    let (bulk_result, parser₁) = next_string parser in
    let (simple_result, parser₂) = next_string parser₁ in
    let (invalid_result, parser₃) = next_string parser₂ in
    let (exhausted_result, parser₄) = next_string parser₃ in
    all_hold (
      unwraps_to (bytes_eq (codes "Hello, ")) bulk_result
      ∷ unwraps_to (bytes_eq (codes "Tokio!")) simple_result
      ∷ is_other invalid_result
      ∷ is_end_of_stream exhausted_result
      ∷ [])

opened_strings : Unit {0}
unfolding Parse.from_frame next_string text_of next_bytes next_bytes_of bytes_of bytes_eq from_utf8
    is_utf8 finish finish_of
opened_strings = tt

test_parse_next_string_passes : test_parse_next_string ≡ true
unfolding opened_strings
test_parse_next_string_passes = refl

-- `parts.next()` drops an argument.
abbrev rest_of : Frames → Frames
rest_of nil = nil
rest_of (cons x rest) = rest

abbrev test_parse_finish : Bool
test_parse_finish =
    let parser = unwrapped (Parse.from_frame (array (cons null nil))) in
    let (error_result, parser₁) = finish parser in
    let parser₂ = record parser₁ { parts = rest_of parser₁.parts } in
    let (result, parser₃) = finish parser₂ in all_hold (is_other error_result ∷ is_ok result ∷ [])

test_parse_finish_passes : test_parse_finish ≡ true
unfolding opened_strings
test_parse_finish_passes = refl

-- `==` of commands.
abbrev command_eq : Command → Command → Bool
command_eq (get k) (get j) = bytes_eq k j
command_eq (set k v) (set j w) = bytes_eq k j && bytes_eq v w
command_eq _ _ = false

abbrev test_get_from_parse : Bool
test_get_from_parse =
    let valid = get_from_parse (new_test (cons (bulk (codes "Answer")) nil)) in
    let extra =
      get_from_parse (new_test (cons (bulk (codes "Answer")) (cons (error (codes "me!")) nil))) in
    all_hold (unwraps_to (command_eq (get (codes "Answer"))) valid.0 ∷ is_other extra.0 ∷ [])

test_get_from_parse_passes : test_get_from_parse ≡ true
unfolding opened_strings get_from_parse
test_get_from_parse_passes = refl

abbrev test_set_from_parse : Bool
test_set_from_parse =
    let valid =
      set_from_parse (new_test (cons (bulk (codes "Answer")) (cons (bulk (codes "42")) nil))) in
    let extra =
      set_from_parse
        (new_test (cons (bulk (codes "Answer")) (cons (bulk (codes "42")) (cons null nil)))) in
    all_hold
      (unwraps_to (command_eq (set (codes "Answer") (codes "42"))) valid.0 ∷ is_other extra.0 ∷ [])

test_set_from_parse_passes : test_set_from_parse ≡ true
unfolding opened_strings set_from_parse
test_set_from_parse_passes = refl

-- The letter U+017F is 197 191 in UTF-8.
abbrev test_command_from_frame : Bool
test_command_from_frame = all_hold (
    unwraps_to (command_eq (get (codes "Answer")))
      (from_frame (array (cons (simple (codes "Get")) (cons (bulk (codes "Answer")) nil))))
    ∷ unwraps_to (command_eq (set (codes "Answer") (codes "42"))) (
        from_frame (
          array (
            cons (bulk (codes "sET"))
              (cons (simple (codes "Answer")) (cons (simple (codes "42")) nil)))))
    ∷ is_other
        (from_frame (array (cons (simple (codes "sudo")) (cons (bulk (codes "rm -rf /")) nil))))
    ∷ is_other (
        from_frame (
          array (
            cons (bulk (197 ∷ 191 ∷ codes "ET"))
              (cons (simple (codes "Answer")) (cons (simple (codes "42")) nil)))))
    ∷ [])

test_command_from_frame_passes : test_command_from_frame ≡ true
unfolding opened_strings from_frame from_arguments select get_from_parse set_from_parse
    eq_ignore_ascii_case to_ascii_lowercase
test_command_from_frame_passes = refl

-- A reply, and what follows it with the database behind it.
abbrev responds : Option (Frame × Database) → Frame → (Database → Bool) → Bool
responds none x later = false
responds (some (y, db)) x later = frame_eq x y && later db

abbrev test_command_apply : Bool
test_command_apply =
    responds (apply (set (codes "Answer") (codes "42")) new_database) (simple (codes "OK"))
      (λ database.
        responds (apply (get (codes "Answer")) database) (bulk (codes "42"))
          (λ database₁. responds (apply (get (codes "Alpha")) database₁) null (λ _. true)))

test_command_apply_passes : test_command_apply ≡ true
unfolding apply Database.get Database.set lock lookup insert bytes_eq frame_eq
test_command_apply_passes = refl
