-- ===== src/Handler/Batch.antt =====
-- The requests that a client sends on one connection, and the replies of `run` of src/handler.rs.
use mini_redis.Prelude.{
  ◌≤◌, ◌≡◌, refl, sym, ap, ◌∙◌, subst, false, Option, some, List, [], ◌∷◌, ◌++◌, append_assoc,
  append-nil, length,
}
use mini_redis.Text.{Bytes}
use mini_redis.Config.{max_buffered_bytes}
use mini_redis.Buf.{BufOps, IsBuf}
use mini_redis.Frame.{Frame}
use mini_redis.Frame.Encode.{encode, IsSendable}
use mini_redis.Stream.{StreamOps, IsStream, IsReliable, IsOpen}
use mini_redis.Database.{Database}
use mini_redis.Command.{Command, get, set}
use mini_redis.Command.Parse
use mini_redis.Command.Requests.{Requests, from_frame-Requests_iff}
use mini_redis.Command.Apply.{Store, store_of, obey, obey_all, apply-Obeys}
use mini_redis.Metrics.{Metrics, inc_requests_received}
use mini_redis.Handler.{
  Handler, Choice, read_completed, Turn, running, Answer, answer, answer_get, answer_set,
  answer_command, on_running, handle_all,
}
use mini_redis.Handler.Turns.{IsReady}
use mini_redis.Handler.Pipeline.{turn-GoesOn}

-- Frames that ask for these commands, and that a connection carries.
pub data Sends : List Frame → List Command → Type 0 where
  sends_none : Sends [] []
  sends_more :
      {x : Frame} {c : Command} {xs : List Frame} {cs : List Command}
      → Requests x c
      → IsSendable 0 x
      → length (encode x) ≤ max_buffered_bytes
      → Sends xs cs
      → Sends (x ∷ xs) (c ∷ cs)

-- The frames one behind the other.
abbrev pub encode_each : List Frame → Bytes
encode_each [] = []
encode_each (x ∷ xs) = encode x ++ encode_each xs

-- A turn for each frame, whose read completes.
abbrev pub reads_of : List Frame → List Choice
reads_of [] = []
reads_of (x ∷ xs) = read_completed ∷ reads_of xs

-- The answer to a command, as the abstract store says.
record Obeyed (c : Command) (db : Database) (o : Option Answer) : Type 0 where
  given : Answer
  is : o ≡ some given
  replies : given.reply ≡ (obey c (store_of db)).0
  sound : given.database.poisoned ≡ false
  stores : store_of given.database ≡ (obey c (store_of db)).1

answer_command-Obeyed :
    (c : Command) (db : Database) (m : Metrics)
    → db.poisoned ≡ false
    → Obeyed c db (answer_command (Parse.ok c) db m)
unfolding answer_command answer_get answer_set
answer_command-Obeyed (get key) db m sound =
    let h = apply-Obeys (get key) db sound in
    subst (λ o. Obeyed (get key) db (answer_get o m)) (sym h.replies)
      (record { given = _; is = refl; replies = refl; sound = h.sound; stores = h.stores })
answer_command-Obeyed (set key value) db m sound =
    let h = apply-Obeys (set key value) db sound in
    subst (λ o. Obeyed (set key value) db (answer_set o m)) (sym h.replies)
      (record { given = _; is = refl; replies = refl; sound = h.sound; stores = h.stores })

answer-Obeyed :
    (x : Frame) (c : Command) (db : Database) (m : Metrics)
    → Requests x c
    → db.poisoned ≡ false
    → Obeyed c db (answer x db m)
unfolding answer
answer-Obeyed x c db m asks sound =
    subst (λ r. Obeyed c db (answer_command r db (inc_requests_received m)))
      (sym ((from_frame-Requests_iff x c).1 asks))
      (answer_command-Obeyed c db (inc_requests_received m) sound)

module _ {S E : Type 0} (net : StreamOps S E) (laws : IsStream net) (rel : IsReliable net) where
  -- The loop goes on, with these replies sent and this input left, and a database that stands for
  -- this store.
  pub record Answered (h : Handler S) (r : Turn S E) (replies : List Frame) (rest : Bytes)
      (m : Store) : Type 0 where
    pub next : Handler S
    pub goes_on : r ≡ running next
    pub sends :
        laws.sent next.connection.stream ≡ laws.sent h.connection.stream ++ encode_each replies
    pub ahead : next.connection.buffer ++ rel.pending next.connection.stream ≡ rest
    pub ready : IsReady next
    pub stores : store_of next.database ≡ m

  handle_all-Answered :
      (open_net : IsOpen net rel.pending) (ops : BufOps) (buf : IsBuf ops) (xs : List Frame)
      (cs : List Command) (h : Handler S) (rest : Bytes)
      → Sends xs cs
      → IsReady h
      → laws.sent h.connection.stream ≡ laws.written h.connection.stream
      → h.connection.buffer ++ rel.pending h.connection.stream ≡ encode_each xs ++ rest
      → Answered h
          (handle_all ops net (reads_of xs) h)
          (obey_all cs (store_of h.database)).0
          rest
          (obey_all cs (store_of h.database)).1
  unfolding handle_all
  handle_all-Answered open_net ops buf [] [] h rest sends_none ready flushed ahead = record {
    next = h;
    goes_on = refl;
    sends = sym (append-nil (laws.sent h.connection.stream));
    ahead = ahead;
    ready = ready;
    stores = refl;
  }
  handle_all-Answered open_net ops buf (x ∷ xs) (c ∷ cs) h rest (sends_more asks sendable few later)
        ready flushed ahead =
      let a = answer-Obeyed x c h.database h.metrics asks ready.sound in
      let one =
        turn-GoesOn net laws rel open_net ops buf h x (encode_each xs ++ rest) a.given ready
          sendable few (ahead ∙ append_assoc (encode x) (encode_each xs) rest) a.is in
      let store : store_of one.next.database ≡ (obey c (store_of h.database)).1 =
        ap store_of one.leaves ∙ a.stores in
      let tail =
        handle_all-Answered open_net ops buf xs cs one.next rest later
          (record { sound = ap (λ db. db.poisoned) one.leaves ∙ a.sound; small = one.small })
          one.flushes one.ahead in
      let sent_one : laws.sent one.next.connection.stream
          ≡ laws.sent h.connection.stream ++ encode (obey c (store_of h.database)).0 =
        one.flushes
        ∙ one.writes
        ∙ ap (λ w. w ++ encode a.given.reply) (sym flushed)
        ∙ ap (λ y. laws.sent h.connection.stream ++ encode y) a.replies in
      record {
        next = tail.next;
        goes_on =
            ap (λ r. on_running r (handle_all ops net (reads_of xs))) one.goes_on ∙ tail.goes_on;
        sends =
            tail.sends
            ∙ ap (λ m. laws.sent one.next.connection.stream ++ encode_each (obey_all cs m).0) store
            ∙ ap (λ w. w ++ encode_each (obey_all cs (obey c (store_of h.database)).1).0) sent_one
            ∙ append_assoc (laws.sent h.connection.stream) (encode (obey c (store_of h.database)).0)
                (encode_each (obey_all cs (obey c (store_of h.database)).1).0);
        ahead = tail.ahead;
        ready = tail.ready;
        stores = tail.stores ∙ ap (λ m. (obey_all cs m).1) store;
      }
  handle_all-Answered open_net ops buf [] (c ∷ cs) h rest s ready flushed ahead = elim s [ ]
  handle_all-Answered open_net ops buf (x ∷ xs) [] h rest s ready flushed ahead = elim s [ ]

-- Where a client sends requests of at most the buffer's budget, however they are cut, nothing that was
-- written is unflushed and neither reads nor writes fail, the loop of a ready handler goes on behind
-- them all, and has sent the replies that the abstract store gives to the commands, in their order;
-- the database then stands for the store that they leave, and what follows the requests is left.
pub handle_all_lem :
    {S E : Type 0} (ops : BufOps) (net : StreamOps S E) (buf : IsBuf ops) (laws : IsStream net)
    (rel : IsReliable net) (xs : List Frame) (cs : List Command) (h : Handler S) (rest : Bytes)
    → IsOpen net rel.pending
    → Sends xs cs
    → IsReady h
    → laws.sent h.connection.stream ≡ laws.written h.connection.stream
    → h.connection.buffer ++ rel.pending h.connection.stream ≡ encode_each xs ++ rest
    → Answered net laws rel h
        (handle_all ops net (reads_of xs) h)
        (obey_all cs (store_of h.database)).0
        rest
        (obey_all cs (store_of h.database)).1
handle_all_lem ops net buf laws rel xs cs h rest open_net sends ready flushed ahead =
    handle_all-Answered net laws rel open_net ops buf xs cs h rest sends ready flushed ahead
