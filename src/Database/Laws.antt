-- ===== src/Database/Laws.antt =====
-- The database as a map: what a `set` changes for every later `get`.
use mini_redis.Prelude.{◌≡◌, refl, ◌↔◌, true, false, some, [], ◌∷◌, arith, if◌then◌else◌}
use mini_redis.Text.{Bytes, bytes_eq}
use mini_redis.Database.{Database, Entries, lookup, insert, lock, get, set}

pub bytes_eq→eq : (s t : Bytes) → bytes_eq s t ≡ true → s ≡ t
unfolding bytes_eq
bytes_eq→eq [] [] h = refl
bytes_eq→eq [] (b ∷ t) h = cc
bytes_eq→eq (a ∷ s) [] h = cc
bytes_eq→eq (a ∷ s) (b ∷ t) h = ground (arith, bytes_eq→eq s t)

pub bytes_eq_refl : (s : Bytes) → bytes_eq s s ≡ true
unfolding bytes_eq
bytes_eq_refl [] = refl
bytes_eq_refl (a ∷ s) = ground (arith, bytes_eq_refl s)

pub bytes_eq_iff : (s t : Bytes) → (bytes_eq s t ≡ true) ↔ (s ≡ t)
bytes_eq_iff s t = (bytes_eq→eq s t, λ e. rw e (bytes_eq_refl t))

pub lookup-insert :
    (k j v : Bytes) (m : Entries)
    → lookup j (insert k v m) ≡ (if bytes_eq k j then some v else lookup j m)
unfolding lookup insert
lookup-insert k j v [] = refl
lookup-insert k j v ((i, w) ∷ m) =
    ground (arith, bytes_eq_iff k j, bytes_eq_iff i k, bytes_eq_iff i j, lookup-insert k j v m)

-- A `get` that follows a `set` returns the value that was set for that key, and what it would have
-- returned before for any other key; neither panics while the mutex is sound.
pub get-set :
    (db : Database) (k j v : Bytes)
    → db.poisoned ≡ false
    → (db' : Database) × (set db k v ≡ some db')
      × (db'.poisoned ≡ false)
      × (get db' j ≡ (if bytes_eq k j then some (some v) else get db j))
unfolding get set lock
get-set db k j v sound = (
  record db { entries = insert k v db.entries },
  rw sound,
  sound,
  ground (arith, lookup-insert k j v db.entries),
)
