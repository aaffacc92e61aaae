-- ===== src/Requester/Agreement.antt =====
-- The requests of src/requester.rs, as src/handler.rs answers them.
use mini_redis.Prelude.{◌≡◌, refl, ap, ◌∙◌, true, false, Option, none, some}
use mini_redis.Text.{Bytes, is_utf8, eq_ignore_ascii_case, bytes_eq}
use mini_redis.Stream.{ok}
use mini_redis.Database.{Database, lookup, insert}
use mini_redis.Command.{Command}
use mini_redis.Command.Parse.Exact.{carries_bulk}
use mini_redis.Command.Requests.{Requests, requests_get, requests_set, from_frame-Requests_iff}
use mini_redis.Command.Apply.{apply-Obeys, stored}
use mini_redis.Metrics.{Metrics, inc_requests_received}
use mini_redis.Handler.{Answer, answer, answer_command, answer_get, answer_set, count_lookup}
use mini_redis.Requester.{get_frame, set_frame, get_response, set_response}

get_frame-Requests : (key : Bytes) → is_utf8 key ≡ true → Requests (get_frame key) (Command.get key)
unfolding is_utf8 eq_ignore_ascii_case
get_frame-Requests key u = requests_get carries_bulk refl refl carries_bulk u

set_frame-Requests :
    (key value : Bytes)
    → is_utf8 key ≡ true
    → Requests (set_frame key value) (Command.set key value)
unfolding is_utf8 eq_ignore_ascii_case
set_frame-Requests key value u = requests_set carries_bulk refl refl carries_bulk u carries_bulk

get_response-stored : (o : Option Bytes) → get_response (stored o) ≡ ok o
unfolding get_response
get_response-stored none = refl
get_response-stored (some v) = refl

-- The handler answers the request that `get` sends from a sound database with what `get` reads as
-- the value stored for the key, or as none, and leaves the database as it was.
pub get_frame-answered :
    (key : Bytes) (db : Database) (m : Metrics)
    → is_utf8 key ≡ true
    → db.poisoned ≡ false
    → (a : Answer) × (answer (get_frame key) db m ≡ some a)
      × (get_response a.reply ≡ ok (lookup key db.entries))
      × (a.database ≡ db)
unfolding answer answer_command answer_get
get_frame-answered key db m u sound = (
  record {
    reply = stored (lookup key db.entries);
    database = db;
    metrics = count_lookup (stored (lookup key db.entries)) (inc_requests_received m);
  },
  ap (λ r. answer_command r db (inc_requests_received m))
        ((from_frame-Requests_iff (get_frame key) (Command.get key)).1 (get_frame-Requests key u))
      ∙ ap (λ o. answer_get o (inc_requests_received m))
          (apply-Obeys (Command.get key) db sound).replies,
  get_response-stored (lookup key db.entries),
  refl,
)

-- The handler answers the request that `set` sends from a sound database with what `set` reads as
-- success, and stores the value for the key.
pub set_frame-answered :
    (key value : Bytes) (db : Database) (m : Metrics)
    → is_utf8 key ≡ true
    → db.poisoned ≡ false
    → (a : Answer) × (answer (set_frame key value) db m ≡ some a)
      × (set_response a.reply ≡ ok tt)
      × (a.database ≡ record db { entries = insert key value db.entries })
unfolding answer answer_command answer_set set_response bytes_eq
set_frame-answered key value db m u sound = (
  _,
  ap (λ r. answer_command r db (inc_requests_received m))
        ((from_frame-Requests_iff (set_frame key value) (Command.set key value)).1
          (set_frame-Requests key value u))
      ∙ ap (λ o. answer_set o (inc_requests_received m))
          (apply-Obeys (Command.set key value) db sound).replies,
  refl,
  refl,
)
