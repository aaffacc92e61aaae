-- ===== src/Command/Requests.antt =====
-- Which frames are commands, apart from the parser of src/command.rs.
use mini_redis.Prelude.{
  ◌≡◌, refl, sym, ap, ◌∙◌, ◌↔◌, ◌≢◌, [], ◌∷◌, arith, inl, inr, true, false, Bool-cases,
}
use mini_redis.Text.{Bytes, codes, is_utf8, eq_ignore_ascii_case}
use mini_redis.Frame.{Frame, Frames, simple, error, integer, bulk, array, null, nil, cons}
use mini_redis.Command.{
  Command, get, set, get_from_parse, set_from_parse, select, from_arguments, from_frame,
}
use mini_redis.Command.Parse.{
  Error, other, Result, ok, err, Taking, continue, ◌>>=◌, ◌>>◌, pure, raise, Arguments, next_bytes,
  next_bytes_of, bytes_of, text_of, next_string, finish, finish_of,
}
use mini_redis.Command.Parse
use mini_redis.Command.Parse.Exact.{
  Carries, next_bytes-Carries, next_string-Carries, next_bytes-Takes, next_string-Takes, finish-inv,
  ok-inv, then-ok, continue-inv,
}

-- The arrays of strings that ask for a command: its name in any case, then its arguments.
pub data Requests : Frame → Command → Type 0 where
  requests_get :
      {n k : Frame} {name key : Bytes}
      → Carries n name
      → is_utf8 name ≡ true
      → eq_ignore_ascii_case name (codes "GET") ≡ true
      → Carries k key
      → is_utf8 key ≡ true
      → Requests (array (cons n (cons k nil))) (get key)
  requests_set :
      {n k v : Frame} {name key value : Bytes}
      → Carries n name
      → is_utf8 name ≡ true
      → eq_ignore_ascii_case name (codes "SET") ≡ true
      → Carries k key
      → is_utf8 key ≡ true
      → Carries v value
      → Requests (array (cons n (cons k (cons v nil)))) (set key value)

-- The command names exclude each other.
pub set-not-get :
    (name : Bytes)
    → eq_ignore_ascii_case name (codes "SET") ≡ true
    → eq_ignore_ascii_case name (codes "GET") ≡ false
unfolding eq_ignore_ascii_case
set-not-get [] h = cc
set-not-get (a ∷ name) h = ground arith

pub select-get :
    (name : Bytes) → eq_ignore_ascii_case name (codes "GET") ≡ true → select name ≡ get_from_parse
unfolding select
select-get name h = rw h refl

pub select-set :
    (name : Bytes)
    → eq_ignore_ascii_case name (codes "GET") ≡ false
    → eq_ignore_ascii_case name (codes "SET") ≡ true
    → select name ≡ set_from_parse
unfolding select
select-set name h k = rw (h, k) refl

pub select-neither :
    (name : Bytes)
    → eq_ignore_ascii_case name (codes "GET") ≡ false
    → eq_ignore_ascii_case name (codes "SET") ≡ false
    → select name ≡ raise (other "Unsupported command; expected GET or SET")
unfolding select
select-neither name h k = rw (h, k) refl

-- What the two argument parsers accept.
get_from_parse-inv :
    (p q : Arguments) (c : Command)
    → get_from_parse p ≡ (ok c, q)
    → (k : Frame) × (key : Bytes) × Carries k key
      × (is_utf8 key ≡ true)
      × (p.parts ≡ cons k nil)
      × (c ≡ get key)
unfolding get_from_parse
get_from_parse-inv p q c e =
    let (key, p₁, taken, e₁) = continue-inv (next_string p) (λ key. finish >> pure (get key)) e in
    let ((k, carries, split), good) = next_string-Takes p p₁ key taken in
    let (u, p₂, ended, e₂) = continue-inv (finish p₁) (λ _. pure (get key)) e₁ in
    (k, key, carries, good, split ∙ ap (cons k) (finish-inv p₁ p₂ ended), sym (ok-inv e₂).0)

set_from_parse-inv :
    (p q : Arguments) (c : Command)
    → set_from_parse p ≡ (ok c, q)
    → (k : Frame) × (v : Frame) × (key : Bytes) × (value : Bytes) × Carries k key
      × (is_utf8 key ≡ true)
      × Carries v value
      × (p.parts ≡ cons k (cons v nil))
      × (c ≡ set key value)
unfolding set_from_parse
set_from_parse-inv p q c e =
    let rest : Bytes → Bytes → Taking Command = λ key value. finish >> pure (set key value) in
    let (key, p₁, taken, e₁) = continue-inv (next_string p) (λ key. next_bytes >>= rest key) e in
    let ((k, carries, split), good) = next_string-Takes p p₁ key taken in
    let (value, p₂, taken₁, e₂) = continue-inv (next_bytes p₁) (rest key) e₁ in
    let (v, carries₁, split₁) = next_bytes-Takes p₁.parts value p₂ taken₁ in
    let (u, p₃, ended, e₃) = continue-inv (finish p₂) (λ _. pure (set key value)) e₂ in
    (
      k,
      v,
      key,
      value,
      carries,
      good,
      carries₁,
      split ∙ ap (cons k) (split₁ ∙ ap (cons v) (finish-inv p₂ p₃ ended)),
      sym (ok-inv e₃).0,
    )

pub from_frame-array :
    (fs : Frames) → from_frame (array fs) ≡ ((next_string >>= select) (record { parts = fs })).0
unfolding from_frame from_arguments Parse.from_frame
from_frame-array fs = refl

pub Requests-from_frame : (x : Frame) (c : Command) → Requests x c → from_frame x ≡ ok c
unfolding get_from_parse set_from_parse finish finish_of
Requests-from_frame x c (requests_get {n} {k} {name} {key} hn un is_get hk uk) =
    from_frame-array (cons n (cons k nil))
    ∙ ap (λ r. r.0)
        (then-ok next_string select (next_string-Carries (cons k nil) hn un)
          ∙ ap (λ m. m (record { parts = cons k nil })) (select-get name is_get)
          ∙ then-ok next_string (λ key. finish >> pure (get key)) (next_string-Carries nil hk uk))
Requests-from_frame x c (requests_set {n} {k} {v} {name} {key} {value} hn un is_set hk uk hv) =
    from_frame-array (cons n (cons k (cons v nil)))
    ∙ ap (λ r. r.0)
        (then-ok next_string select (next_string-Carries (cons k (cons v nil)) hn un)
          ∙ ap (λ m. m (record { parts = cons k (cons v nil) }))
              (select-set name (set-not-get name is_set) is_set)
          ∙ then-ok next_string (λ key. next_bytes >>= λ value. finish >> pure (set key value))
              (next_string-Carries (cons v nil) hk uk)
          ∙ then-ok next_bytes (λ value. finish >> pure (set key value))
              (next_bytes-Carries nil hv))

select-Requests :
    (fs : Frames) (p q : Arguments) (n : Frame) (name : Bytes) (c : Command)
    → Carries n name
    → is_utf8 name ≡ true
    → fs ≡ cons n p.parts
    → select name p ≡ (ok c, q)
    → Requests (array fs) c
select-Requests fs p q n name c hn un split e =
    elim (Bool-cases (eq_ignore_ascii_case name (codes "GET"))) [
      | inl is_get ↦
          let (k, key, hk, uk, left, is) =
            get_from_parse-inv p q c (ap (λ m. m p) (sym (select-get name is_get)) ∙ e) in
          rw (split, left, is) (requests_get hn un is_get hk uk)
      | inr not_get ↦ elim (Bool-cases (eq_ignore_ascii_case name (codes "SET"))) [
        | inl is_set ↦
            let (k, v, key, value, hk, uk, hv, left, is) =
              set_from_parse-inv p q c (ap (λ m. m p) (sym (select-set name not_get is_set)) ∙ e) in
            rw (split, left, is) (requests_set hn un is_set hk uk hv)
        | inr not_set ↦
            absurd (refused (ap (λ m. m p) (sym (select-neither name not_get not_set)) ∙ e))
      ]
    ]
  where
    refused :
        ◌≢◌ {A = Result Command × Arguments}
          (err (other "Unsupported command; expected GET or SET"), p)
          (ok c, q)
    refused e₁ = cc

from_frame-Requests : (x : Frame) (c : Command) → from_frame x ≡ ok c → Requests x c
from_frame-Requests (array fs) c e =
    let run : Result Command × Arguments = (next_string >>= select) (record { parts = fs }) in
    let (name, p, taken, e₁) =
      continue-inv (next_string (record { parts = fs })) select
        ((λ i. ((sym (from_frame-array fs) ∙ e) i, run.1))) in
    let ((n, hn, split), un) = next_string-Takes (record { parts = fs }) p name taken in
    select-Requests fs p run.1 n name c hn un split e₁
from_frame-Requests (simple s) c e = unfold from_frame from_arguments Parse.from_frame in cc
from_frame-Requests (error s) c e = unfold from_frame from_arguments Parse.from_frame in cc
from_frame-Requests (integer z) c e = unfold from_frame from_arguments Parse.from_frame in cc
from_frame-Requests (bulk s) c e = unfold from_frame from_arguments Parse.from_frame in cc
from_frame-Requests null c e = unfold from_frame from_arguments Parse.from_frame in cc

-- `from_frame` accepts a frame as a command exactly when the frame is an array of strings with the
-- command's name, in any case, and then exactly its arguments, name and key being UTF-8.
pub from_frame-Requests_iff : (x : Frame) (c : Command) → (from_frame x ≡ ok c) ↔ Requests x c
from_frame-Requests_iff x c = (from_frame-Requests x c, Requests-from_frame x c)
