-- ===== src/Command/Refusals.antt =====
-- The errors of `Command::from_frame` of src/command.rs.
use mini_redis.Prelude.{◌≡◌, refl, sym, ap, ◌∙◌, ◌↔◌, subst, inl, inr, true, false, [], ◌∷◌}
use mini_redis.Text.{Bytes, is_utf8, from_utf8}
use mini_redis.Frame.{Frame, Frames, simple, error, integer, bulk, array, null, nil, cons}
use mini_redis.Command.{
  Command, get, set, get_from_parse, set_from_parse, select, from_arguments, from_frame,
}
use mini_redis.Command.Parse.{
  Error, end_of_stream, other, Result, ok, err, Taking, continue, ◌>>=◌, ◌>>◌, pure, Arguments,
  next_bytes, next_bytes_of, bytes_of, text_of, next_string, finish, finish_of, raise,
}
use mini_redis.Command.Parse
use mini_redis.Command.Parse.Exact.{
  Carries, carries_bulk, carries_simple, next_bytes-Carries, next_string-Carries, then-ok,
  from_utf8-invalid,
}
use mini_redis.Command.Requests.{
  Requests-from_frame, from_frame-array, select-get, select-set, select-neither, set-not-get,
}
use mini_redis.Command.Rejects.{
  text, any, fits_text, fits_any, Misfits, missing, wrong_type, not_text, MisfitsAll, first, later,
  extra, Rejects, no_array, no_name, bad_get, bad_set, unsupported, Requests-or-Rejects,
}

-- A refusal ends a chain of arguments.
abbrev Refuses : {A : Type 0} → Taking A → Frames → Error → Type 0
Refuses {A} m fs e = (q : Arguments) × (m (record { parts = fs }) ≡ (err e, q))

then-err :
    {A B : Type 0} (m : Taking A) (f : A → Taking B) {fs : Frames} {e : Error}
    → Refuses m fs e
    → Refuses (m >>= f) fs e
then-err m f (q, is) = (q, ap (λ r. continue r f) is)

then-later :
    {A B : Type 0} (m : Taking A) (f : A → Taking B) {fs rest : Frames} {a : A} {e : Error}
    → m (record { parts = fs }) ≡ (ok a, record { parts = rest })
    → Refuses (f a) rest e
    → Refuses (m >>= f) fs e
then-later m f is (q, wrong) = (q, then-ok m f is ∙ wrong)

bytes_of-refuses :
    (x : Frame)
    → ((s : Bytes) → Carries x s → ⊥)
    → bytes_of x ≡ err (other "Expected a bulk or simple string argument")
unfolding bytes_of
bytes_of-refuses (bulk s) not = absurd (not s carries_bulk)
bytes_of-refuses (simple s) not = absurd (not s carries_simple)
bytes_of-refuses (error s) not = refl
bytes_of-refuses (integer z) not = refl
bytes_of-refuses (array fs) not = refl
bytes_of-refuses null not = refl

next_bytes-Refuses : (fs : Frames) (e : Error) → Misfits any fs e → Refuses next_bytes fs e
unfolding next_bytes next_bytes_of
next_bytes-Refuses _ _ missing = (_, refl)
next_bytes-Refuses _ _ (wrong_type {x} {fs} not) =
    (record { parts = fs }, ap (λ r. (r, record { parts = fs })) (bytes_of-refuses x not))

next_string-Refuses : (fs : Frames) (e : Error) → Misfits text fs e → Refuses next_string fs e
unfolding next_string text_of
next_string-Refuses _ _ missing =
    then-err next_bytes (λ b. text_of (from_utf8 b)) (next_bytes-Refuses nil end_of_stream missing)
next_string-Refuses _ _ (wrong_type {x} {fs} not) =
    then-err next_bytes (λ b. text_of (from_utf8 b))
      (next_bytes-Refuses (cons x fs) _ (wrong_type not))
next_string-Refuses _ _ (not_text {x} {fs} {s} h bad) =
    then-later next_bytes (λ b. text_of (from_utf8 b)) (next_bytes-Carries fs h)
      (unconverted s fs bad)
  where
    unconverted :
        (s : Bytes) (fs : Frames)
        → is_utf8 s ≡ false
        → Refuses (text_of (from_utf8 s)) fs (other "Argument is not valid UTF-8")
    unconverted s fs bad = (
      record { parts = fs },
      ap (λ o. text_of o (record { parts = fs })) (from_utf8-invalid s bad),
    )

finish-Refuses :
    {A : Type 0} (m : Taking A) (fs : Frames) (e : Error)
    → MisfitsAll [] fs e
    → Refuses (finish >> m) fs e
unfolding finish finish_of
finish-Refuses m _ _ extra = (_, refl)

get_from_parse-Refuses :
    (fs : Frames) (e : Error) → MisfitsAll (text ∷ []) fs e → Refuses get_from_parse fs e
unfolding get_from_parse
get_from_parse-Refuses fs e (first wrong) =
    then-err next_string (λ key. finish >> pure (get key)) (next_string-Refuses fs e wrong)
get_from_parse-Refuses _ e (later {fs} (fits_text {s} h u) wrong) =
    then-later next_string (λ key. finish >> pure (get key)) (next_string-Carries fs h u)
      (finish-Refuses (pure (get s)) fs e wrong)

set_from_parse-Refuses :
    (fs : Frames) (e : Error) → MisfitsAll (text ∷ any ∷ []) fs e → Refuses set_from_parse fs e
unfolding set_from_parse
set_from_parse-Refuses fs e (first wrong) =
    then-err next_string (λ key. next_bytes >>= λ value. finish >> pure (set key value))
      (next_string-Refuses fs e wrong)
set_from_parse-Refuses _ e (later {fs} (fits_text {s} h u) (first wrong)) =
    then-later next_string (λ key. next_bytes >>= λ value. finish >> pure (set key value))
      (next_string-Carries fs h u)
      (then-err next_bytes (λ value. finish >> pure (set s value)) (next_bytes-Refuses fs e wrong))
set_from_parse-Refuses _ e (later (fits_text {s} h u) (later {fs} (fits_any {s = t} k) wrong)) =
    then-later next_string (λ key. next_bytes >>= λ value. finish >> pure (set key value))
      (next_string-Carries (cons _ fs) h u)
      (then-later next_bytes (λ value. finish >> pure (set s value)) (next_bytes-Carries fs k)
        (finish-Refuses (pure (set s t)) fs e wrong))

-- What the named command refuses, `from_frame` refuses.
named-Refuses :
    {n : Frame} {name : Bytes} {m : Taking Command} {fs : Frames} {e : Error}
    → Carries n name
    → is_utf8 name ≡ true
    → select name ≡ m
    → Refuses m fs e
    → from_frame (array (cons n fs)) ≡ err e
named-Refuses {n} {name} {m} {fs} {e} h u is wrong =
    let selected : Refuses (select name) fs e = subst (λ m. Refuses m fs e) (sym is) wrong in
    refusing (cons n fs) e (then-later next_string select (next_string-Carries fs h u) selected)
  where
    refusing :
        (fs : Frames) (e : Error)
        → Refuses (next_string >>= select) fs e
        → from_frame (array fs) ≡ err e
    refusing fs e (q, wrong) = from_frame-array fs ∙ ap (λ r. r.0) wrong

Rejects-from_frame : (x : Frame) (e : Error) → Rejects x e → from_frame x ≡ err e
unfolding from_frame from_arguments Parse.from_frame
Rejects-from_frame (array fs) _ (no_array not) = absurd (not fs refl)
Rejects-from_frame (simple s) _ (no_array not) = refl
Rejects-from_frame (error s) _ (no_array not) = refl
Rejects-from_frame (integer z) _ (no_array not) = refl
Rejects-from_frame (bulk s) _ (no_array not) = refl
Rejects-from_frame null _ (no_array not) = refl
Rejects-from_frame _ e (no_name {fs} wrong) =
    from_frame-array fs
    ∙ ap (λ r. r.0) (then-err next_string select (next_string-Refuses fs e wrong)).1
Rejects-from_frame _ e (bad_get {name} {fs} h u g wrong) =
    named-Refuses h u (select-get name g) (get_from_parse-Refuses fs e wrong)
Rejects-from_frame _ e (bad_set {name} {fs} h u g wrong) =
    named-Refuses h u (select-set name (set-not-get name g) g) (set_from_parse-Refuses fs e wrong)
Rejects-from_frame _ e (unsupported {name} {fs} h u not_get not_set) =
    named-Refuses h u (select-neither name not_get not_set) (record { parts = fs }, refl)

from_frame-Rejects : (x : Frame) (e : Error) → from_frame x ≡ err e → Rejects x e
from_frame-Rejects x e is = elim (Requests-or-Rejects x) [
  | inl (c, asks) ↦ let both : ok c ≡ err e = sym (Requests-from_frame x c asks) ∙ is in absurd (cc)
  | inr (e₁, wrong) ↦
      let both : ◌≡◌ {A = Result Command} (err e₁) (err e) =
        sym (Rejects-from_frame x e₁ wrong) ∙ is in
      subst (Rejects x) (cc) wrong
]

-- `from_frame` refuses a frame with an error exactly when the error names what is wrong with it first:
-- it is no array; its name is missing, no string or no UTF-8; the name is of no command; or an
-- argument, from the left, is missing, no string, a key that is no UTF-8, or one too many.
pub from_frame-Rejects_iff : (x : Frame) (e : Error) → (from_frame x ≡ err e) ↔ Rejects x e
from_frame-Rejects_iff x e = (from_frame-Rejects x e, Rejects-from_frame x e)
