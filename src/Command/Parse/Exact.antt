-- ===== src/Command/Parse/Exact.antt =====
-- What `next_bytes`, `next_string` and `finish` of src/parse.rs take off the arguments.
use mini_redis.Prelude.{
  ◌≡◌, refl, sym, ap, ◌∙◌, subst, ◌≢◌, inl, inr, true, false, none, some, Bool-cases,
}
use mini_redis.Text.{Bytes, is_utf8, from_utf8}
use mini_redis.Frame.{Frame, Frames, simple, error, integer, bulk, array, null, nil, cons}
use mini_redis.Command.Parse.{
  other, Result, ok, err, Taking, continue, ◌>>=◌, Arguments, next_bytes, bytes_of, text_of,
  next_string, finish, finish_of,
}

-- The frame is a string argument with these bytes.
pub data Carries : Frame → Bytes → Type 0 where
  carries_bulk : {s : Bytes} → Carries (bulk s) s
  carries_simple : {s : Bytes} → Carries (simple s) s

-- An argument that was taken was the first.
abbrev pub Takes : Bytes → Frames → Frames → Type 0
Takes s fs rest = (x : Frame) × Carries x s × (fs ≡ cons x rest)

pub next_bytes-Carries :
    {x : Frame} {s : Bytes} (rest : Frames)
    → Carries x s
    → next_bytes (record { parts = cons x rest }) ≡ (ok s, record { parts = rest })
unfolding next_bytes bytes_of
next_bytes-Carries rest carries_bulk = refl
next_bytes-Carries rest carries_simple = refl

-- A chain of arguments, one call at a time.
module _ {A B : Type 0} where
  pub then-ok :
      (m : Taking A) (f : A → Taking B) {p q : Arguments} {a : A}
      → m p ≡ (ok a, q)
      → (m >>= f) p ≡ f a q
  then-ok m f e = ap (λ r. continue r f) e

  pub continue-inv :
      (r : Result A × Arguments) (f : A → Taking B) {q : Arguments} {b : B}
      → continue r f ≡ (ok b, q)
      → (a : A) × (q' : Arguments) × (r ≡ (ok a, q')) × (f a q' ≡ (ok b, q))
  continue-inv (ok a, q') f e = (a, q', refl, e)
  continue-inv (err x, q') f e = cc

pub ok-inv :
    {A : Type 0} {a b : A} {p q : Arguments}
    → ◌≡◌ {A = Result A × Arguments} (ok a, p) (ok b, q)
    → (a ≡ b) × (p ≡ q)
ok-inv e = (cc, cc)

from_utf8-valid : (s : Bytes) → is_utf8 s ≡ true → from_utf8 s ≡ some s
unfolding from_utf8
from_utf8-valid s u = rw u refl

pub from_utf8-invalid : (s : Bytes) → is_utf8 s ≡ false → from_utf8 s ≡ none
unfolding from_utf8
from_utf8-invalid s u = rw u refl

text_of-inv :
    (s t : Bytes) (p q : Arguments)
    → text_of (from_utf8 s) p ≡ (ok t, q)
    → (s ≡ t) × (p ≡ q) × (is_utf8 s ≡ true)
unfolding text_of
text_of-inv s t p q e = elim (Bool-cases (is_utf8 s)) [
  | inl good ↦
      let kept = ok-inv (ap (λ o. text_of o p) (sym (from_utf8-valid s good)) ∙ e) in
      (kept.0, kept.1, good)
  | inr bad ↦ absurd (refused (ap (λ o. text_of o p) (sym (from_utf8-invalid s bad)) ∙ e))
]
  where
    refused :
        ◌≢◌ {A = Result Bytes × Arguments} (err (other "Argument is not valid UTF-8"), p) (ok t, q)
    refused e₁ = cc

pub next_string-Carries :
    {x : Frame} {s : Bytes} (rest : Frames)
    → Carries x s
    → is_utf8 s ≡ true
    → next_string (record { parts = cons x rest }) ≡ (ok s, record { parts = rest })
unfolding next_string text_of
next_string-Carries {s} rest h u =
    then-ok next_bytes (λ b. text_of (from_utf8 b)) (next_bytes-Carries rest h)
    ∙ ap (λ o. text_of o (record { parts = rest })) (from_utf8-valid s u)

pub next_bytes-Takes :
    (fs : Frames) (s : Bytes) (q : Arguments)
    → next_bytes (record { parts = fs }) ≡ (ok s, q)
    → Takes s fs q.parts
unfolding next_bytes bytes_of
next_bytes-Takes nil s q e = cc
next_bytes-Takes (cons (bulk t) rest) s q e =
    (bulk t, subst (Carries (bulk t)) (cc) carries_bulk, cc)
next_bytes-Takes (cons (simple t) rest) s q e =
    (simple t, subst (Carries (simple t)) (cc) carries_simple, cc)
next_bytes-Takes (cons (error t) rest) s q e = cc
next_bytes-Takes (cons (integer z) rest) s q e = cc
next_bytes-Takes (cons (array fs) rest) s q e = cc
next_bytes-Takes (cons null rest) s q e = cc

pub next_string-Takes :
    (p q : Arguments) (s : Bytes)
    → next_string p ≡ (ok s, q)
    → Takes s p.parts q.parts × (is_utf8 s ≡ true)
unfolding next_string
next_string-Takes p q s e =
    let (bytes, q', taken, converted) =
      continue-inv (next_bytes p) (λ b. text_of (from_utf8 b)) e in
    let (same, left, good) = text_of-inv bytes s q' q converted in
    (
      next_bytes-Takes p.parts s q (taken ∙ (λ i. (ok (same i), left i))),
      subst (λ t. is_utf8 t ≡ true) same good,
    )

pub finish-inv : (p q : Arguments) → finish p ≡ (ok tt, q) → p.parts ≡ nil
unfolding finish finish_of
finish-inv p q e = go p.parts e
  where
    go : (fs : Frames) → finish_of fs ≡ (ok tt, q) → fs ≡ nil
    go nil e = refl
    go (cons x fs) e = cc
