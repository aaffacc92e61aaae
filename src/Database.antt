-- ===== src/Database.antt =====
-- src/database.rs: the key-value map behind a mutex. `HashMap` is an association list with at most
-- one entry for a key; the program never iterates over it. A locked method is one atomic step.
pub mod Laws
mod Tests
mod Examples
use mini_redis.Prelude.{Bool, true, false, Option, none, some, List, [], ◌∷◌, if◌then◌else◌}
use mini_redis.Text.{Bytes, bytes_eq}

abbrev pub Entries : Type 0
Entries = List (Bytes × Bytes)

-- `Arc<Mutex<HashMap<String, Bytes>>>`; a mutex is poisoned by a panic of a thread that holds it.
pub record Database : Type 0 where
  pub poisoned : Bool
  pub entries : Entries

-- `Database::new`.
abbrev pub new_database : Database
new_database = record { poisoned = false; entries = [] }

-- `HashMap::get` and `HashMap::insert`.
unfoldable pub lookup : Bytes → Entries → Option Bytes
lookup k [] = none
lookup k ((j, v) ∷ m) = if bytes_eq j k then some v else lookup k m

unfoldable pub insert : Bytes → Bytes → Entries → Entries
insert k v [] = (k, v) ∷ []
insert k v ((j, w) ∷ m) = if bytes_eq j k then (k, v) ∷ m else (j, w) ∷ insert k v m

-- `lock().expect(…)`; `none` stands for the panic at a poisoned mutex.
unfoldable pub lock : Database → Option Entries
lock db = if db.poisoned then none else some db.entries

unfoldable pub get : Database → Bytes → Option (Option Bytes)
get db key = elim (lock db) [ none ↦ none | some entries ↦ some (lookup key entries) ]

unfoldable pub set : Database → Bytes → Bytes → Option Database
set db key value = elim (lock db) [
  | none ↦ none
  | some entries ↦ some (record db { entries = insert key value entries })
]
