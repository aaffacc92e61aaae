-- ===== src/Handler/Runs.antt =====
-- The loop of `run` of src/handler.rs, with its guard, on any stream.
use mini_redis.Prelude.{◌≤◌, ◌≡◌, ◌≢◌, refl, sym, ap, ◌∙◌, subst, List, [], ◌∷◌}
use mini_redis.Config.{usize_max}
use mini_redis.Buf.{BufOps, IsBuf}
use mini_redis.Frame.{Frame}
use mini_redis.Stream.{StreamOps, IsStream}
use mini_redis.Connection.{Failure}
use mini_redis.Metrics.{fetch_inc, fetch_dec, inc_active_connections}
use mini_redis.Metrics.Laws.{fetch_dec-fetch_inc}
use mini_redis.Handler.{
  Handler, Choice, read_completed, timed_out, shut_down, Turn, running, finished, gave_error, turn,
  ending, drop_guard, on_running, handle_all, run,
}
use mini_redis.Handler.Turns.{IsReady, Answers-active, Answers-sound, AnswersEach-active}
use mini_redis.Handler.Serves.{
  Serves, served, interrupted_reply, ended, reported, report_failed, turn_lem,
}
use mini_redis.Handler.Serviced.{Serviced, Serviced-refl, Serviced-more}

-- The choices are one read for each frame, and then these.
pub data ReadsFirst : List Frame → List Choice → List Choice → Type 0 where
  reads_none : {choices : List Choice} → ReadsFirst [] choices choices
  reads_more :
      {x : Frame} {xs : List Frame} {choices rest : List Choice}
      → ReadsFirst xs choices rest
      → ReadsFirst (x ∷ xs) (read_completed ∷ choices) rest

module _ {S E : Type 0} (net : StreamOps S E) (laws : IsStream net) where
  -- What the loop leaves: it goes on behind an answered frame for each of the choices; or it ends
  -- behind some, as the next choice is a timeout or the shutdown, or as the next read finds an empty
  -- buffer at EOF; or the turn of the next read fails.
  pub data Handles (h : Handler S) (choices : List Choice) : Turn S E → Type 0 where
    goes_on :
        {h' : Handler S} {xs : List Frame}
        → ReadsFirst xs choices []
        → Serviced net laws h h' xs
        → IsReady h'
        → Handles h choices (running h')
    chosen :
        {h' : Handler S} {xs : List Frame} {choice : Choice} {later : List Choice}
        → ReadsFirst xs choices (choice ∷ later)
        → choice ≢ read_completed
        → Serviced net laws h h' xs
        → Handles h choices (finished h')
    at_eof :
        {h₁ h' : Handler S} {xs : List Frame} {later : List Choice}
        → ReadsFirst xs choices (read_completed ∷ later)
        → Serviced net laws h h₁ xs
        → Serves net laws h₁ (finished h')
        → Handles h choices (finished h')
    fails :
        {h₁ h' : Handler S} {e : Failure E} {xs : List Frame} {later : List Choice}
        → ReadsFirst xs choices (read_completed ∷ later)
        → Serviced net laws h h₁ xs
        → Serves net laws h₁ (gave_error e h')
        → Handles h choices (gave_error e h')

  Handles-behind :
      (h h₁ : Handler S) (x : Frame) (choices : List Choice) (r : Turn S E)
      → ((h' : Handler S) (xs : List Frame)
          → Serviced net laws h₁ h' xs
          → Serviced net laws h h' (x ∷ xs))
      → Handles h₁ choices r
      → Handles h (read_completed ∷ choices) r
  Handles-behind h h₁ x choices _ first (goes_on {h'} {xs} reads later ready) =
      goes_on (reads_more reads) (first h' xs later) ready
  Handles-behind h h₁ x choices _ first (chosen {h'} {xs} reads other later) =
      chosen (reads_more reads) other (first h' xs later)
  Handles-behind h h₁ x choices _ first (at_eof {h₁ = h₂} {xs = xs} reads later last) =
      at_eof (reads_more reads) (first h₂ xs later) last
  Handles-behind h h₁ x choices _ first (fails {h₁ = h₂} {xs = xs} reads later last) =
      fails (reads_more reads) (first h₂ xs later) last

  on_running-Handles :
      (h : Handler S) (choices : List Choice) (r : Turn S E) (k : Handler S → Turn S E)
      → IsReady h
      → ((h₁ : Handler S) → IsReady h₁ → Handles h₁ choices (k h₁))
      → Serves net laws h r
      → Handles h (read_completed ∷ choices) (on_running r k)
  on_running-Handles h choices _ k ready later
        (served {x} {c} {a} arrived t spells p answers w f quiet small) =
      Handles-behind h _ x choices _
        (λ h' xs rest.
          Serviced-more net laws h _ h' x xs c a arrived t spells p answers w quiet refl refl refl
            rest)
        (later _ (record {
          sound = Answers-sound x h.database h.metrics a ready.sound answers;
          small = small;
        }))
  on_running-Handles h choices _ k ready later
        (interrupted_reply arrived t p q spells passes answers split w is) =
      fails reads_none (Serviced-refl net laws h)
        (interrupted_reply arrived t p q spells passes answers split w is)
  on_running-Handles h choices _ k ready later (ended p empty read) =
      at_eof reads_none (Serviced-refl net laws h) (ended p empty read)
  on_running-Handles h choices _ k ready later (reported arrived why p w all) =
      fails reads_none (Serviced-refl net laws h) (reported arrived why p w all)
  on_running-Handles h choices _ k ready later (report_failed arrived p q why passes split w is) =
      fails reads_none (Serviced-refl net laws h) (report_failed arrived p q why passes split w is)

  timed_out-other : timed_out ≢ read_completed
  timed_out-other e = cc

  shut_down-other : shut_down ≢ read_completed
  shut_down-other e = cc

  module _ (ops : BufOps) (buf : IsBuf ops) where
    handle_all-Handles :
        (choices : List Choice) (h : Handler S)
        → IsReady h
        → Handles h choices (handle_all ops net choices h)
    unfolding handle_all turn
    handle_all-Handles [] h ready = goes_on reads_none (Serviced-refl net laws h) ready
    handle_all-Handles (read_completed ∷ later) h ready =
        on_running-Handles h later (turn ops net read_completed h) (handle_all ops net later) ready
          (handle_all-Handles later) (turn_lem net laws ops buf h ready)
    handle_all-Handles (timed_out ∷ later) h ready =
        chosen reads_none timed_out-other (Serviced-refl net laws h)
    handle_all-Handles (shut_down ∷ later) h ready =
        chosen reads_none shut_down-other (Serviced-refl net laws h)

  -- The handler at the start of its loop.
  abbrev pub begin_run : Handler S → Handler S
  begin_run h = record h { metrics = inc_active_connections h.metrics }

  -- The handler with its active connections counted as at the start of `run`.
  abbrev pub uncounted : Handler S → Handler S → Handler S
  uncounted h h₁ = record h₁ {
    metrics = record h₁.metrics { active_connections = h.metrics.active_connections };
  }

  -- What `run` leaves: what its loop does, with one more active connection while it goes on and as
  -- many as at the start once it has ended.
  pub data Settles (h : Handler S) (choices : List Choice) : Turn S E → Type 0 where
    still_runs :
        {h₁ : Handler S}
        → Handles (begin_run h) choices (running h₁)
        → h₁.metrics.active_connections ≡ fetch_inc h.metrics.active_connections
        → Settles h choices (running h₁)
    has_finished :
        {h₁ : Handler S}
        → Handles (begin_run h) choices (finished h₁)
        → Settles h choices (finished (uncounted h h₁))
    has_failed :
        {e : Failure E} {h₁ : Handler S}
        → Handles (begin_run h) choices (gave_error e h₁)
        → Settles h choices (gave_error e (uncounted h h₁))

  last-active :
      (h : Handler S) (e : Failure E) (h' : Handler S)
      → Serves net laws h (gave_error e h')
      → h'.metrics.active_connections ≡ h.metrics.active_connections
  last-active h _ _ (interrupted_reply {x} {a = a} _ _ _ _ _ _ answers _ _ _) =
      Answers-active x h.database h.metrics a answers
  last-active h _ _ (reported _ _ _ _ _) = refl
  last-active h _ _ (report_failed _ _ _ _ _ _ _ _) = refl

  eof-active :
      (h h' : Handler S)
      → Serves net laws h (finished h')
      → h'.metrics.active_connections ≡ h.metrics.active_connections
  eof-active h _ (ended _ _ _) = refl

  drop_guard-uncounted :
      (h h₁ : Handler S)
      → h.metrics.active_connections ≤ usize_max
      → h₁.metrics.active_connections ≡ (begin_run h).metrics.active_connections
      → uncounted h h₁ ≡ drop_guard h₁
  unfolding drop_guard
  drop_guard-uncounted h h₁ few same =
      ap (λ n. record h₁ { metrics = record h₁.metrics { active_connections = n } })
        (sym (ap fetch_dec same ∙ fetch_dec-fetch_inc h.metrics.active_connections few))

  ending-Settles :
      (h : Handler S) (choices : List Choice) (r : Turn S E)
      → h.metrics.active_connections ≤ usize_max
      → Handles (begin_run h) choices r
      → Settles h choices (ending r)
  unfolding ending
  ending-Settles h choices _ few (goes_on {h'} reads done ready) =
      still_runs (goes_on reads done ready) (AnswersEach-active done.answers)
  ending-Settles h choices _ few (chosen {h'} reads other done) =
      subst (λ y. Settles h choices (finished y))
        (drop_guard-uncounted h h' few (AnswersEach-active done.answers))
        (has_finished (chosen reads other done))
  ending-Settles h choices _ few (at_eof {h₁} {h'} reads done last) =
      subst (λ y. Settles h choices (finished y))
        (drop_guard-uncounted h h' few (eof-active h₁ h' last ∙ AnswersEach-active done.answers))
        (has_finished (at_eof reads done last))
  ending-Settles h choices _ few (fails {h₁} {h'} {e} reads done last) =
      subst (λ y. Settles h choices (gave_error e y))
        (drop_guard-uncounted h h' few (last-active h₁ e h' last ∙ AnswersEach-active done.answers))
        (has_failed (fails reads done last))

-- Whatever the loop selects, on any stream, from a sound mutex and a buffer within its budget, `run`
-- takes a frame off the input for each read that completes, as the bytes spell it and in their order,
-- answers and counts each from what the one before it leaves, and writes every reply in full. It goes
-- on behind them all; or it ends well behind some, at a timeout or the shutdown, or at a read of an
-- empty buffer at EOF; or it ends with the error of the turn of one more read, as that turn leaves it.
-- The active connections are one more while it runs and the same again once it has ended.
pub run_lem :
    {S E : Type 0} (net : StreamOps S E) (ops : BufOps) (buf : IsBuf ops) (laws : IsStream net)
    (choices : List Choice) (h : Handler S)
    → IsReady h
    → h.metrics.active_connections ≤ usize_max
    → Settles net laws h choices (run ops net choices h)
unfolding run
run_lem net ops buf laws choices h ready few =
    ending-Settles net laws h choices (handle_all ops net choices (begin_run net laws h)) few (
      handle_all-Handles net laws ops buf choices (begin_run net laws h)
        (record { sound = ready.sound; small = ready.small }))
