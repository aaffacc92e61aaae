-- ===== src/Handler/Shared/Sends.antt =====
-- The replies that each of several handlers of src/handler.rs sends.
use mini_redis.Prelude.{
  ℕ, zero, suc, ◌≤◌, ◌≡◌, refl, sym, ap, ◌∙◌, subst, Option, none, some, List, [], ◌∷◌, ◌++◌,
  append_assoc, append-nil, length, arith,
}
use mini_redis.Frame.{Frame}
use mini_redis.Database.{Database}
use mini_redis.Metrics.{Metrics}
use mini_redis.Handler.Shared.{
  Stage, starting, idle, counted, looked_up, replying, left, dropped, StageEvent, starts, reads,
  leaves, proceeds, replied, reply_failed, Moved, stage_step, Shared, step_at, stage_at, held_reply,
  Applied, Schedule, interleave,
}
use mini_redis.Handler.Shared.Linear.{head_moved-inv, behind-inv, and_then-inv}

abbrev pub listed : Option Frame → List Frame
listed none = []
listed (some y) = y ∷ []

-- The reply that a handler comes to hold by an event, from the stages before and behind it.
unfoldable pub gained : StageEvent → Stage → Stage → List Frame
gained proceeds (counted x) behind_it = listed (held_reply behind_it)
gained _ _ behind_it = []

-- The reply whose write an event completes.
unfoldable pub given : StageEvent → Stage → List Frame
given replied (replying y) = y ∷ []
given _ _ = []

-- What an event of the second handler gives for the first.
unfoldable pub mine : ℕ → ℕ → List Frame → List Frame
mine zero zero ys = ys
mine (suc i) (suc j) ys = mine i j ys
mine zero (suc j) ys = []
mine (suc i) zero ys = []

abbrev pub next_of : Option Shared → (Shared → List Frame) → List Frame
next_of none k = []
next_of (some s) k = k s

abbrev pub step : Schedule → Shared → Option Shared
step t s = step_at t.handler t.event s.stages s.database s.metrics

-- The replies that a handler comes to hold, and those that it sends, in their order.
unfoldable pub held_by : ℕ → List Schedule → Shared → List Frame
held_by i [] s = []
held_by i (t ∷ later) s = next_of (step t s) (λ s₁.
    mine i t.handler (gained t.event (stage_at t.handler s.stages) (stage_at t.handler s₁.stages))
    ++ held_by i later s₁)

unfoldable pub sent_by : ℕ → List Schedule → Shared → List Frame
sent_by i [] s = []
sent_by i (t ∷ later) s =
    next_of (step t s)
      (λ s₁. mine i t.handler (given t.event (stage_at t.handler s.stages)) ++ sent_by i later s₁)

-- The replies that a handler has come to hold and has not sent: the one it holds, or, once it has
-- failed, at most one.
abbrev pub Unsent : Stage → List Frame → Type 0
Unsent starting ys = ys ≡ []
Unsent idle ys = ys ≡ []
Unsent (counted x) ys = ys ≡ []
Unsent (looked_up y) ys = ys ≡ y ∷ []
Unsent (replying y) ys = ys ≡ y ∷ []
Unsent left ys = ys ≡ []
Unsent dropped ys = length ys ≤ 1

-- From unsent replies `ys`, what is left behind these gains and sends.
abbrev Onward : Stage → List Frame → List Frame → List Frame → Type 0
Onward stage ys gains sends = (zs : List Frame) × (ys ++ gains ≡ sends ++ zs) × Unsent stage zs

held-Unsent : (stage : Stage) → Unsent stage (listed (held_reply stage))
unfolding held_reply
held-Unsent starting = refl
held-Unsent idle = refl
held-Unsent (counted x) = refl
held-Unsent (looked_up y) = refl
held-Unsent (replying y) = refl
held-Unsent left = refl
held-Unsent dropped = omega arith

same-Onward : (stage : Stage) (ys : List Frame) → Unsent stage ys → Onward stage ys [] []
same-Onward stage ys h = (ys, append-nil ys, h)

moved-Onward :
    (e : StageEvent) (stage : Stage) {r r' : Moved} (ys : List Frame)
    → some r ≡ some r'
    → Onward r.stage ys (gained e stage r.stage) (given e stage)
    → Onward r'.stage ys (gained e stage r'.stage) (given e stage)
moved-Onward e stage {r} {r'} ys is h =
    let same : r ≡ r' = cc in
    subst (λ (x : Moved). Onward x.stage ys (gained e stage x.stage) (given e stage)) same h

stage_step-Onward :
    (e : StageEvent) (stage : Stage) (db : Database) (m : Metrics) (r : Moved) (ys : List Frame)
    → Unsent stage ys
    → stage_step e stage db m ≡ some r
    → Onward r.stage ys (gained e stage r.stage) (given e stage)
unfolding stage_step gained given
stage_step-Onward starts starting db m r ys h is =
    moved-Onward starts starting ys is (same-Onward idle ys h)
stage_step-Onward (reads x) idle db m r ys h is =
    moved-Onward (reads x) idle ys is (same-Onward (counted x) ys h)
stage_step-Onward leaves idle db m r ys h is =
    moved-Onward leaves idle ys is (same-Onward left ys h)
stage_step-Onward proceeds (counted x) db m r ys h is =
    (listed (held_reply r.stage), ap (λ l. l ++ listed (held_reply r.stage)) h, held-Unsent r.stage)
stage_step-Onward proceeds (looked_up y) db m r ys h is =
    moved-Onward proceeds (looked_up y) ys is (same-Onward (replying y) ys h)
stage_step-Onward replied (replying y) db m r ys h is =
    moved-Onward replied (replying y) ys is ([], append-nil ys ∙ h, refl)
stage_step-Onward reply_failed (replying y) db m r ys h is =
    moved-Onward reply_failed (replying y) ys is
      (same-Onward dropped ys (omega (arith, ap length h)))
stage_step-Onward _ _ db m r ys h is = cc

step_at-Onward :
    (i j : ℕ) (e : StageEvent) (stages : List Stage) (db : Database) (m : Metrics) (s : Shared)
    (ys : List Frame)
    → Unsent (stage_at i stages) ys
    → step_at j e stages db m ≡ some s
    → Onward
        (stage_at i s.stages)
        ys
        (mine i j (gained e (stage_at j stages) (stage_at j s.stages)))
        (mine i j (given e (stage_at j stages)))
unfolding step_at stage_at mine
step_at-Onward i j e [] db m s ys h is = cc
step_at-Onward zero zero e (stage ∷ later) db m s ys h is =
    let (r, moves, at) = head_moved-inv (stage_step e stage db m) is in
    subst
      (λ (x : Shared).
        Onward (stage_at 0 x.stages) ys (gained e stage (stage_at 0 x.stages)) (given e stage))
      (sym at) (stage_step-Onward e stage db m r ys h moves)
step_at-Onward (suc i) zero e (stage ∷ later) db m s ys h is =
    let (r, moves, at) = head_moved-inv (stage_step e stage db m) is in
    subst (λ (x : Shared). Onward (stage_at (suc i) x.stages) ys [] []) (sym at)
      (same-Onward (stage_at i later) ys h)
step_at-Onward zero (suc j) e (stage ∷ later) db m s ys h is =
    let (s', moves, at) = behind-inv (step_at j e later db m) is in
    subst (λ (x : Shared). Onward (stage_at 0 x.stages) ys [] []) (sym at) (same-Onward stage ys h)
step_at-Onward (suc i) (suc j) e (stage ∷ later) db m s ys h is =
    let (s', moves, at) = behind-inv (step_at j e later db m) is in
    subst
      (λ (x : Shared).
        Onward (stage_at (suc i) x.stages) ys
          (mine i j (gained e (stage_at j later) (stage_at (suc j) x.stages)))
          (mine i j (given e (stage_at j later))))
      (sym at) (step_at-Onward i j e later db m s' ys h moves)

-- Replies that are gained and sent one step behind the other.
joined :
    (ys gains sends zs gains' sends' zs' : List Frame)
    → ys ++ gains ≡ sends ++ zs
    → zs ++ gains' ≡ sends' ++ zs'
    → ys ++ (gains ++ gains') ≡ (sends ++ sends') ++ zs'
joined ys gains sends zs gains' sends' zs' one two =
    sym (append_assoc ys gains gains')
    ∙ ap (λ l. l ++ gains') one
    ∙ append_assoc sends zs gains'
    ∙ ap (λ l. sends ++ l) two
    ∙ sym (append_assoc sends sends' zs')

interleave-Onward :
    (i : ℕ) (steps : List Schedule) (s s' : Shared) (log : List Applied) (ys : List Frame)
    → Unsent (stage_at i s.stages) ys
    → interleave steps s ≡ some (log, s')
    → Onward (stage_at i s'.stages) ys (held_by i steps s) (sent_by i steps s)
unfolding interleave held_by sent_by
interleave-Onward i [] s s' log ys h is =
    let same : s ≡ s' = cc in
    subst (λ (x : Shared). Onward (stage_at i x.stages) ys [] []) same
      (same-Onward (stage_at i s.stages) ys h)
interleave-Onward i (t ∷ later) s s' log ys h is =
    let (s₁, log₁, stepped, rest, added) = and_then-inv t s (step t s) is in
    let (zs, first, unsent) =
      step_at-Onward i t.handler t.event s.stages s.database s.metrics s₁ ys h stepped in
    let (zs', second, still) = interleave-Onward i later s₁ s' log₁ zs unsent rest in
    subst
      (λ o.
        Onward (stage_at i s'.stages) ys
          (next_of o (λ s₂.
            mine i t.handler
              (gained t.event (stage_at t.handler s.stages) (stage_at t.handler s₂.stages))
            ++ held_by i later s₂))
          (next_of o (λ s₂.
            mine i t.handler (given t.event (stage_at t.handler s.stages)) ++ sent_by i later s₂)))
      (sym stepped) (zs', joined ys _ _ zs _ _ zs' first second, still)

-- However the handlers interleave, a handler that is between two requests sends the replies that it
-- comes to hold behind its frames, each of them once and in their order, but for the last: that is
-- still unsent if the handler holds it, and may be if the handler has ended by a failure.
pub interleave-Sends :
    (i : ℕ) (steps : List Schedule) (s s' : Shared) (log : List Applied)
    → stage_at i s.stages ≡ idle
    → interleave steps s ≡ some (log, s')
    → (unsent : List Frame) × (held_by i steps s ≡ sent_by i steps s ++ unsent)
      × Unsent (stage_at i s'.stages) unsent
interleave-Sends i steps s s' log at is =
    interleave-Onward i steps s s' log [] (subst (λ stage. Unsent stage []) (sym at) refl) is
