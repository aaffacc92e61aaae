-- ===== src/Command/Examples.antt =====
-- The theorems on commands at concrete inputs.
use mini_redis.Prelude.{◌≡◌, refl, ◌↔◌, ◌∷◌, [], some, false, List}
use mini_redis.Text.{codes}
use mini_redis.Frame.{Frame, simple, bulk, array, nil, cons}
use mini_redis.Database.{Database, new_database}
use mini_redis.Command.{Command, get, set, from_frame}
use mini_redis.Command.Parse
use mini_redis.Command.Requests.{Requests, from_frame-Requests_iff}
use mini_redis.Command.Rejects.{Rejects}
use mini_redis.Command.Refusals.{from_frame-Rejects_iff}
use mini_redis.Command.Apply.{store_of, obey_all, apply_all, apply_all-refines}

abbrev set_a : Frame
set_a = array (cons (simple (codes "Set")) (cons (bulk (codes "a")) (cons (bulk (codes "7")) nil)))

from_frame-Requests_iff_example :
    (from_frame set_a ≡ Parse.ok (set (codes "a") (codes "7")))
    ↔ Requests set_a (set (codes "a") (codes "7"))
from_frame-Requests_iff_example = from_frame-Requests_iff set_a (set (codes "a") (codes "7"))

abbrev script : List Command
script = set (codes "a") (codes "7") ∷ get (codes "a") ∷ get (codes "b") ∷ []

apply_all-refines_example :
    (db' : Database) × (apply_all script new_database
      ≡ some ((obey_all script (store_of new_database)).0, db'))
    × (db'.poisoned ≡ false)
    × (store_of db' ≡ (obey_all script (store_of new_database)).1)
apply_all-refines_example = apply_all-refines script new_database refl

abbrev get_two : Frame
get_two =
    array (cons (simple (codes "get")) (cons (bulk (codes "a")) (cons (bulk (codes "b")) nil)))

from_frame-Rejects_iff_example :
    (from_frame get_two ≡ Parse.err (Parse.other "Unexpected extra argument"))
    ↔ Rejects get_two (Parse.other "Unexpected extra argument")
from_frame-Rejects_iff_example =
    from_frame-Rejects_iff get_two (Parse.other "Unexpected extra argument")
