-- ===== src/Database/Tests.antt =====
-- The tests of src/database.rs.
use mini_redis.Prelude.{◌≡◌, refl, Bool, true, false, ◌&&◌, Option, none, some, [], ◌∷◌}
use mini_redis.Text.{Bytes, codes, bytes_eq}
use mini_redis.Database.{Entries, Database, new_database, lookup, insert, lock, get, set}

-- The entries behind the lock, and a value that is there.
abbrev locked : Option Entries → (Entries → Bool) → Bool
locked none p = false
locked (some entries) p = p entries

abbrev is_empty : Entries → Bool
is_empty [] = true
is_empty (entry ∷ entries) = false

abbrev is_some : Bytes → Option Bytes → Bool
is_some v none = false
is_some v (some w) = bytes_eq v w

abbrev is_none : Option Bytes → Bool
is_none none = true
is_none (some w) = false

-- A call that does not panic.
abbrev returns : {A : Type 0} → Option A → (A → Bool) → Bool
returns none p = false
returns (some a) p = p a

abbrev with_answer : Database
with_answer = record new_database {
  entries = insert (codes "Answer") (codes "42") new_database.entries;
}

abbrev test_database_new : Bool
test_database_new = locked (lock new_database) is_empty

abbrev test_database_get : Bool
test_database_get =
    returns (get with_answer (codes "Answer")) (is_some (codes "42"))
    && returns (get with_answer (codes "Solution")) is_none

abbrev test_database_set : Bool
test_database_set = returns (set with_answer (codes "Answer") (codes "Forty-two")) (λ database.
    locked (lock database)
      (λ entries. is_some (codes "Forty-two") (lookup (codes "Answer") entries))
    && returns (set database (codes "Alpha") (codes "137")) (λ database₁.
      locked (lock database₁) (λ entries. is_some (codes "137") (lookup (codes "Alpha") entries))))

test_database_new_passes : test_database_new ≡ true
unfolding lock
test_database_new_passes = refl

test_database_get_passes : test_database_get ≡ true
unfolding get lock lookup insert bytes_eq
test_database_get_passes = refl

test_database_set_passes : test_database_set ≡ true
unfolding set lock lookup insert bytes_eq
test_database_set_passes = refl
