-- ===== src/Command/Apply.antt =====
-- `Command::apply` of src/command.rs against an abstract store, a function from keys to values.
use mini_redis.Prelude.{
  ◌≡◌, refl, ap, ◌∙◌, fun_ext, true, false, Option, none, some, List, [], ◌∷◌, if◌then◌else◌, arith,
  ◌≤◌, length,
}
use mini_redis.Prelude.Int.{i64_max}
use mini_redis.Text.{Bytes, codes, bytes_eq, is_utf8}
use mini_redis.Frame.{Frame, simple, bulk, null}
use mini_redis.Frame.Line.Exact.{IsLine}
use mini_redis.Frame.Encode.{IsSendable, sendable_bulk, sendable_null}
use mini_redis.Database
use mini_redis.Database.{Database, lookup, lock, insert}
use mini_redis.Database.Laws.{lookup-insert}
use mini_redis.Command.{Command, get, set, apply}

-- The store that a database stands for, and what a command does to a store.
abbrev pub Store : Type 0
Store = Bytes → Option Bytes

abbrev pub store_of : Database → Store
store_of db k = lookup k db.entries

abbrev pub stored : Option Bytes → Frame
stored none = null
stored (some bytes) = bulk bytes

abbrev pub obey : Command → Store → Frame × Store
obey (get key) m = (stored (m key), m)
obey (set key value) m = (simple (codes "OK"), λ j. if bytes_eq key j then some value else m j)

abbrev pub obey_all : List Command → Store → List Frame × Store
obey_all [] m = ([], m)
obey_all (c ∷ cs) m = let (x, m₁) = obey c m in let (xs, m₂) = obey_all cs m₁ in (x ∷ xs, m₂)

abbrev replied : Frame → Option (List Frame × Database) → Option (List Frame × Database)
replied x none = none
replied x (some (xs, db)) = some (x ∷ xs, db)

abbrev followed :
    Option (Frame × Database)
    → (Database → Option (List Frame × Database))
    → Option (List Frame × Database)
followed none rest = none
followed (some (x, db)) rest = replied x (rest db)

-- One command after another, with their replies; `none` once one of them panics.
abbrev pub apply_all : List Command → Database → Option (List Frame × Database)
apply_all [] db = some ([], db)
apply_all (c ∷ cs) db = followed (apply c db) (apply_all cs)

-- The outcome of a command on a sound database, as the store says.
pub record Obeys (c : Command) (db db' : Database) : Type 0 where
  pub replies : apply c db ≡ some ((obey c (store_of db)).0, db')
  pub sound : db'.poisoned ≡ false
  pub stores : store_of db' ≡ (obey c (store_of db)).1

abbrev pub after : Command → Database → Database
after (get key) db = db
after (set key value) db = record db { entries = insert key value db.entries }

pub apply-Obeys : (c : Command) (db : Database) → db.poisoned ≡ false → Obeys c db (after c db)
unfolding apply lock Database.get Database.set
apply-Obeys (get key) db sound = record { replies = ground arith; sound = sound; stores = refl }
apply-Obeys (set key value) db sound = record {
  replies = rw sound refl;
  sound = sound;
  stores = fun_ext (λ j. lookup-insert key j value db.entries);
}

-- Any sequence of commands on a sound database runs without a panic, with the replies of the
-- abstract store that the database stands for, and leaves a sound database that stands for the
-- store that they leave.
pub apply_all-refines :
    (cs : List Command) (db : Database)
    → db.poisoned ≡ false
    → (db' : Database) × (apply_all cs db ≡ some ((obey_all cs (store_of db)).0, db'))
      × (db'.poisoned ≡ false)
      × (store_of db' ≡ (obey_all cs (store_of db)).1)
apply_all-refines [] db sound = (db, refl, sound, refl)
apply_all-refines (c ∷ cs) db sound =
    let h = apply-Obeys c db sound in
    let (db', runs, sound', stores) = apply_all-refines cs (after c db) h.sound in
    let again = runs ∙ ap (λ m. some ((obey_all cs m).0, db')) h.stores in
    (
      db',
      ap (λ o. followed o (apply_all cs)) h.replies ∙ ap (replied (obey c (store_of db)).0) again,
      sound',
      stores ∙ ap (λ m. (obey_all cs m).1) h.stores,
    )

pub stored-IsSendable :
    (o : Option Bytes) → ((v : Bytes) → o ≡ some v → length v ≤ i64_max) → IsSendable 0 (stored o)
stored-IsSendable none few = sendable_null
stored-IsSendable (some v) few = sendable_bulk (few v refl)

pub ok-IsLine : IsLine (codes "OK")
ok-IsLine =
    (((λ e. omega arith), (λ e. omega arith)), (((λ e. omega arith), (λ e. omega arith)), tt))

pub ok_text : is_utf8 (codes "OK") ≡ true
unfolding is_utf8
ok_text = refl
