-- ===== src/Database/Examples.antt =====
-- The theorem on the database at a concrete map.
use mini_redis.Prelude.{◌≡◌, refl, some, false, if◌then◌else◌, ◌∷◌, []}
use mini_redis.Text.{codes, bytes_eq}
use mini_redis.Database.{Database, get, set}
use mini_redis.Database.Laws.{get-set}

abbrev two_keys : Database
two_keys = record {
  poisoned = false;
  entries = (codes "a", codes "1") ∷ ((codes "b", codes "2") ∷ []);
}

get-set_example :
    (db : Database) × (set two_keys (codes "b") (codes "3") ≡ some db)
    × (db.poisoned ≡ false)
    × (get db (codes "a") ≡ (
        if bytes_eq (codes "b") (codes "a")
        then some (some (codes "3"))
        else get two_keys (codes "a")))
get-set_example = get-set two_keys (codes "b") (codes "a") (codes "3") refl
