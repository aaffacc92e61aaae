-- ===== src/Frame/Arrival.antt =====
-- `Frame::parse` of src/frame.rs on input of which a part has arrived.
use mini_redis.Prelude.{◌≡◌, refl, sym, subst, ◌≢◌, ◌⊎◌, inl, inr, String}
use mini_redis.Text.{Bytes}
use mini_redis.Buf.{Cursor, BufOps, IsBuf, IsBuf-unique, extended, IsInside}
use mini_redis.Frame.{Frame, incomplete, other}
use mini_redis.Frame.Reader.{Outcome, ok, err, panicked, out_of_fuel}
use mini_redis.Frame.Reader.Steady.{Extends, value_stays, refusal_stays, waits, panics, starves}
use mini_redis.Frame.Parse.{parse}
use mini_redis.Frame.Parse.Steady.{parse-Steady}
use mini_redis.Frame.Exact.{parse_total}

parse-Extends :
    (ops : BufOps)
    → IsBuf ops
    → (c : Cursor) (more : Bytes) → IsInside c
    → Extends more (parse ops c) (parse ops (extended c more))
parse-Extends ops laws c more h = rw (IsBuf-unique laws) (parse-Steady more c h)

Extends-refusal :
    {more : Bytes} {r r' : Outcome Frame}
    → Extends more r r'
    → (m : String) (c : Cursor) → r ≡ err (other m) c
    → r' ≡ err (other m) (extended c more)
Extends-refusal (value_stays h) m c e = cc
Extends-refusal {more} (refusal_stays {m = m₁} {c = c₁}) m c e =
    let same : ◌≡◌ {A = Outcome Frame} (err (other m₁) c₁) (err (other m) c) = e in
    let text_is : m₁ ≡ m = cc in
    let at : c₁ ≡ c = cc in λ i. err (other (text_is i)) (extended (at i) more)
Extends-refusal waits m c e = cc
Extends-refusal panics m c e = cc
Extends-refusal starves m c e = cc

-- A refusal is final: input that `parse` has refused, from a position inside it, is refused with the
-- same message, and with the cursor at the same place, when more bytes follow.
pub parse_refused-extended :
    (ops : BufOps)
    → IsBuf ops
    → (c c' : Cursor) (more : Bytes) (m : String) → IsInside c
    → parse ops c ≡ err (other m) c'
    → parse ops (extended c more) ≡ err (other m) (extended c' more)
parse_refused-extended ops laws c c' more m h e =
    Extends-refusal (parse-Extends ops laws c more h) m c' e

-- What a part of the input gives, where the whole gives `x`.
data Partly (more : Bytes) (x : Frame) (c' : Cursor) : Outcome Frame → Type 0 where
  whole : (c₁ : Cursor) → c' ≡ extended c₁ more → Partly more x c' (ok x c₁)
  part : (c₁ : Cursor) → Partly more x c' (err incomplete c₁)

Extends-Partly :
    {more : Bytes} {r r' : Outcome Frame} {x : Frame} {c' : Cursor}
    → Extends more r r'
    → r' ≡ ok x c'
    → r ≢ panicked
    → r ≢ out_of_fuel
    → Partly more x c' r
Extends-Partly {more} {x} {c'} (value_stays {a} {c} h) e np nf =
    let same : a ≡ x = cc in
    let at : extended c more ≡ c' = cc in
    subst (λ y. Partly more x c' (ok y c)) (sym same) (whole c (sym at))
Extends-Partly refusal_stays e np nf = cc
Extends-Partly (waits {c}) e np nf = part c
Extends-Partly panics e np nf = absurd (np refl)
Extends-Partly starves e np nf = absurd (nf refl)

-- Where the whole input gives a frame, a part of it that ends behind the position gives that frame
-- too, with the same end, or it is found to be incomplete; it is never refused.
pub parse-prefix :
    (ops : BufOps)
    → IsBuf ops
    → (c c' : Cursor) (more : Bytes) (x : Frame) → IsInside c
    → parse ops (extended c more) ≡ ok x c'
    → ((c₁ : Cursor) × (parse ops c ≡ ok x c₁) × (c' ≡ extended c₁ more))
      ⊎ ((c₁ : Cursor) × (parse ops c ≡ err incomplete c₁))
parse-prefix ops laws c c' more x h e =
    let (np, nf) = parse_total ops laws c in
    go (parse ops c) (Extends-Partly (parse-Extends ops laws c more h) e np nf)
  where
    go :
        (r : Outcome Frame)
        → Partly more x c' r
        → ((c₁ : Cursor) × (r ≡ ok x c₁) × (c' ≡ extended c₁ more))
          ⊎ ((c₁ : Cursor) × (r ≡ err incomplete c₁))
    go _ (whole c₁ at) = inl (c₁, refl, at)
    go _ (part c₁) = inr (c₁, refl)
