-- ===== src/Command.antt =====
-- src/command.rs: the commands GET and SET, parsed from a frame and applied to the database.
pub mod Parse
pub mod Requests
pub mod Rejects
pub mod Refusals
mod Tests
pub mod Apply
mod Examples
use mini_redis.Prelude.{◌≡◌, String, Bool, true, false, Option, none, some, if◌then◌else◌}
use mini_redis.Text.{Bytes, codes, eq_ignore_ascii_case}
use mini_redis.Frame.{Frame, simple, bulk, null}
use mini_redis.Command.Parse.{
  Error, other, Result, ok, err, Arguments, Taking, continue, ◌>>=◌, ◌>>◌, pure, raise, next_bytes,
  next_string, finish,
}
use mini_redis.Command.Parse
use mini_redis.Database
use mini_redis.Database.{Database}

-- `Command`, with the fields of `Get` and of `Set`.
pub data Command : Type 0 where
  get : (key : Bytes) → Command
  set : (key value : Bytes) → Command

-- `Get::from_parse` and `Set::from_parse`.
unfoldable pub get_from_parse : Taking Command
get_from_parse = do key ← next_string; finish; pure (get key)

unfoldable pub set_from_parse : Taking Command
set_from_parse = do key ← next_string; value ← next_bytes; finish; pure (set key value)

unfoldable pub select : Bytes → Taking Command
select name =
    if eq_ignore_ascii_case name (codes "GET")
    then get_from_parse
    else if eq_ignore_ascii_case name (codes "SET")
    then set_from_parse
    else raise (other "Unsupported command; expected GET or SET")

unfoldable pub from_arguments : Result Arguments → Result Command
from_arguments (err e) = err e
from_arguments (ok p) = ((next_string >>= select) p).0

-- `Command::from_frame`.
unfoldable pub from_frame : Frame → Result Command
from_frame x = from_arguments (Parse.from_frame x)

-- `Command::apply`, with the database that it leaves; `none` stands for a panic at the mutex.
unfoldable pub apply : Command → Database → Option (Frame × Database)
apply (get key) db = elim (Database.get db key) [
  | none ↦ none
  | some (some bytes) ↦ some (bulk bytes, db)
  | some none ↦ some (null, db)
]
apply (set key value) db = elim (Database.set db key value) [
  | none ↦ none
  | some db' ↦ some (simple (codes "OK"), db')
]
