-- ===== src/Handler/Answers.antt =====
-- What one complete frame is answered with, and what it changes and counts: steps 5 and 6 of `run`
-- of src/handler.rs.
use mini_redis.Prelude.{◌≡◌, refl, false, Option, none, some}
use mini_redis.Text.{Bytes, codes}
use mini_redis.Frame.{Frame, simple, error, bulk, null}
use mini_redis.Database.{Database, lookup, insert}
use mini_redis.Command.{Command, get, set, from_frame}
use mini_redis.Command.Parse
use mini_redis.Command.Requests.{Requests, from_frame-Requests_iff}
use mini_redis.Command.Rejects.{Rejects}
use mini_redis.Command.Refusals.{from_frame-Rejects_iff}
use mini_redis.Command.Apply.{apply-Obeys, stored}
use mini_redis.Metrics.{
  Metrics, inc_requests_received, inc_cache_hits, inc_cache_misses, inc_command_parse_errors,
}
use mini_redis.Handler.{Answer, count_lookup, answer_get, answer_set, answer_command, answer}

-- The answer to a frame, from the requests that frames make and the entries of the database.
pub data Answers (x : Frame) (db : Database) (m : Metrics) : Answer → Type 0 where
  hit :
      {key value : Bytes}
      → Requests x (get key)
      → lookup key db.entries ≡ some value
      → Answers x db m (record {
        reply = bulk value;
        database = db;
        metrics = inc_cache_hits (inc_requests_received m);
      })
  miss :
      {key : Bytes}
      → Requests x (get key)
      → lookup key db.entries ≡ none
      → Answers x db m (record {
        reply = null;
        database = db;
        metrics = inc_cache_misses (inc_requests_received m);
      })
  stores :
      {key value : Bytes}
      → Requests x (set key value)
      → Answers x db m (record {
        reply = simple (codes "OK");
        database = record db { entries = insert key value db.entries };
        metrics = inc_requests_received m;
      })
  refuses :
      {e : Parse.Error}
      → Rejects x e
      → Answers x db m (record {
        reply = error (Parse.error_text e);
        database = db;
        metrics = inc_command_parse_errors (inc_requests_received m);
      })

-- Every frame gets an answer from a sound database: the value of the key that a GET asks for, or
-- null, with a hit or a miss counted; OK to a SET, which stores its value; and to a frame that is no
-- command the error that names what is wrong with it, counted, with the database as it was. Each
-- frame counts as one request.
pub answer_lem :
    (x : Frame) (db : Database) (m : Metrics)
    → db.poisoned ≡ false
    → (a : Answer) × (answer x db m ≡ some a) × Answers x db m a
unfolding answer answer_command answer_get answer_set count_lookup
answer_lem x db m sound = go (from_frame x) refl
  where
    found :
        (key : Bytes) (o : Option Bytes)
        → lookup key db.entries ≡ o
        → Requests x (get key)
        → (a : Answer) × (answer_get (some (stored o, db)) (inc_requests_received m) ≡ some a)
          × Answers x db m a
    found key none h asks = (_, refl, miss asks h)
    found key (some value) h asks = (_, refl, hit asks h)

    go :
        (r : Parse.Result Command)
        → from_frame x ≡ r
        → (a : Answer) × (answer_command r db (inc_requests_received m) ≡ some a) × Answers x db m a
    go (Parse.ok (get key)) e =
        rw ((apply-Obeys (get key) db sound).replies)
          (found key (lookup key db.entries) refl ((from_frame-Requests_iff x (get key)).0 e))
    go (Parse.ok (set key value)) e =
        rw ((apply-Obeys (set key value) db sound).replies)
          (_, refl, stores ((from_frame-Requests_iff x (set key value)).0 e))
    go (Parse.err err) e = (_, refl, refuses ((from_frame-Rejects_iff x err).0 e))
