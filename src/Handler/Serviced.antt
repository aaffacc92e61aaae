-- ===== src/Handler/Serviced.antt =====
-- The frames that the loop of `run` of src/handler.rs answers, on any stream.
use mini_redis.Prelude.{◌≡◌, sym, ap, ◌∙◌, subst, List, [], ◌∷◌, ◌++◌, append_assoc, append-nil}
use mini_redis.Text.{Bytes}
use mini_redis.Frame.{Frame}
use mini_redis.Frame.Encode.{encode}
use mini_redis.Frame.Grammar.{Spells}
use mini_redis.Stream.{StreamOps, IsStream}
use mini_redis.Connection.{Connection}
use mini_redis.Connection.Rounds.{Passes}
use mini_redis.Metrics.{inc_command_responses_written}
use mini_redis.Handler.{Handler, Answer}
use mini_redis.Handler.Answers.{Answers}
use mini_redis.Handler.Turns.{
  SpellsEach, spells_none, spells_more, AnswersEach, answers_none, answers_more,
}
use mini_redis.Handler.Batch.{encode_each}

module _ {S E : Type 0} (net : StreamOps S E) (laws : IsStream net) where
  -- From `h` to `h'` the loop has taken these frames off the input, answered them, and written every reply.
  pub record Serviced (h h' : Handler S) (frames : List Frame) : Type 0 where
    pub replies : List Frame
    pub arrived : Bytes
    pub taken : Bytes
    pub spells : SpellsEach frames taken
    pub arrives : laws.received h'.connection.stream ≡ laws.received h.connection.stream ++ arrived
    pub splits : h.connection.buffer ++ arrived ≡ taken ++ h'.connection.buffer
    pub writes :
        laws.written h'.connection.stream ≡ laws.written h.connection.stream ++ encode_each replies
    pub answers : AnswersEach h.database h.metrics frames replies h'.database h'.metrics

  pub Serviced-refl : (h : Handler S) → Serviced h h []
  Serviced-refl h = record {
    replies = [];
    arrived = [];
    taken = [];
    spells = spells_none;
    arrives = sym (append-nil (laws.received h.connection.stream));
    splits = append-nil h.connection.buffer;
    writes = sym (append-nil (laws.written h.connection.stream));
    answers = answers_none;
  }

  -- One answered frame, and then what later turns do.
  pub Serviced-more :
      (h h₁ h' : Handler S) (x : Frame) (xs : List Frame) (c : Connection S) (a : Answer)
      (arrived t : Bytes)
      → Spells 0 x t
      → Passes net laws h.connection c arrived t
      → Answers x h.database h.metrics a
      → laws.written h₁.connection.stream ≡ laws.written c.stream ++ encode a.reply
      → laws.received h₁.connection.stream ≡ laws.received c.stream
      → h₁.connection.buffer ≡ c.buffer
      → h₁.database ≡ a.database
      → h₁.metrics ≡ inc_command_responses_written a.metrics
      → Serviced h₁ h' xs
      → Serviced h h' (x ∷ xs)
  Serviced-more h h₁ h' x xs c a arrived t spells p answers wrote quiet same db_is m_is later =
      record {
        replies = a.reply ∷ later.replies;
        arrived = arrived ++ later.arrived;
        taken = t ++ later.taken;
        spells = spells_more spells later.spells;
        arrives =
            later.arrives
            ∙ ap (λ b. b ++ later.arrived) (quiet ∙ p.arrives)
            ∙ append_assoc (laws.received h.connection.stream) arrived later.arrived;
        splits =
            sym (append_assoc h.connection.buffer arrived later.arrived)
            ∙ ap (λ b. b ++ later.arrived) p.splits
            ∙ append_assoc t c.buffer later.arrived
            ∙ ap (λ b. t ++ (b ++ later.arrived)) (sym same)
            ∙ ap (λ b. t ++ b) later.splits
            ∙ sym (append_assoc t later.taken h'.connection.buffer);
        writes =
            later.writes
            ∙ ap (λ b. b ++ encode_each later.replies)
                (wrote ∙ ap (λ b. b ++ encode a.reply) p.silent)
            ∙ append_assoc (laws.written h.connection.stream) (encode a.reply)
                (encode_each later.replies);
        answers = answers_more answers (
            subst
              (λ db.
                AnswersEach db (inc_command_responses_written a.metrics) xs later.replies
                  h'.database h'.metrics)
              db_is
              (subst (λ m. AnswersEach h₁.database m xs later.replies h'.database h'.metrics) m_is
                later.answers));
      }
