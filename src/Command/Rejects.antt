-- ===== src/Command/Rejects.antt =====
-- Which error each frame that is no command is refused with, apart from the parser of src/command.rs.
use mini_redis.Prelude.{◌≡◌, ◌⊎◌, inl, inr, true, false, Bool-cases, List, [], ◌∷◌}
use mini_redis.Text.{Bytes, codes, is_utf8, eq_ignore_ascii_case}
use mini_redis.Frame.{Frame, Frames, simple, error, integer, bulk, array, null, nil, cons}
use mini_redis.Command.{Command, get, set}
use mini_redis.Command.Parse.{Error, end_of_stream, other}
use mini_redis.Command.Parse.Exact.{Carries, carries_bulk, carries_simple}
use mini_redis.Command.Requests.{Requests, requests_get, requests_set}

-- The arguments of the two commands: texts, and bytes of any kind.
pub data Kind : Type 0 where
  text any : Kind

pub data Fits : Kind → Frame → Type 0 where
  fits_text : {x : Frame} {s : Bytes} → Carries x s → is_utf8 s ≡ true → Fits text x
  fits_any : {x : Frame} {s : Bytes} → Carries x s → Fits any x

-- What is wrong with the first of the arguments.
pub data Misfits : Kind → Frames → Error → Type 0 where
  missing : {k : Kind} → Misfits k nil end_of_stream
  wrong_type :
      {k : Kind} {x : Frame} {fs : Frames}
      → ((s : Bytes) → Carries x s → ⊥)
      → Misfits k (cons x fs) (other "Expected a bulk or simple string argument")
  not_text :
      {x : Frame} {fs : Frames} {s : Bytes}
      → Carries x s
      → is_utf8 s ≡ false
      → Misfits text (cons x fs) (other "Argument is not valid UTF-8")

-- The arguments are of these kinds, and no more.
pub data FitsAll : List Kind → Frames → Type 0 where
  fits_none : FitsAll [] nil
  fits_more :
      {k : Kind} {ks : List Kind} {x : Frame} {fs : Frames}
      → Fits k x
      → FitsAll ks fs
      → FitsAll (k ∷ ks) (cons x fs)

-- What is wrong with them, by the first that is wrong.
pub data MisfitsAll : List Kind → Frames → Error → Type 0 where
  first :
      {k : Kind} {ks : List Kind} {fs : Frames} {e : Error}
      → Misfits k fs e
      → MisfitsAll (k ∷ ks) fs e
  later :
      {k : Kind} {ks : List Kind} {x : Frame} {fs : Frames} {e : Error}
      → Fits k x
      → MisfitsAll ks fs e
      → MisfitsAll (k ∷ ks) (cons x fs) e
  extra : {x : Frame} {fs : Frames} → MisfitsAll [] (cons x fs) (other "Unexpected extra argument")

-- The frames that are no command, with what is wrong.
pub data Rejects : Frame → Error → Type 0 where
  no_array :
      {x : Frame} → ((fs : Frames) → x ≡ array fs → ⊥) → Rejects x (other "Expected an array frame")
  no_name : {fs : Frames} {e : Error} → Misfits text fs e → Rejects (array fs) e
  bad_get :
      {n : Frame} {name : Bytes} {fs : Frames} {e : Error}
      → Carries n name
      → is_utf8 name ≡ true
      → eq_ignore_ascii_case name (codes "GET") ≡ true
      → MisfitsAll (text ∷ []) fs e
      → Rejects (array (cons n fs)) e
  bad_set :
      {n : Frame} {name : Bytes} {fs : Frames} {e : Error}
      → Carries n name
      → is_utf8 name ≡ true
      → eq_ignore_ascii_case name (codes "SET") ≡ true
      → MisfitsAll (text ∷ any ∷ []) fs e
      → Rejects (array (cons n fs)) e
  unsupported :
      {n : Frame} {name : Bytes} {fs : Frames}
      → Carries n name
      → is_utf8 name ≡ true
      → eq_ignore_ascii_case name (codes "GET") ≡ false
      → eq_ignore_ascii_case name (codes "SET") ≡ false
      → Rejects (array (cons n fs)) (other "Unsupported command; expected GET or SET")

-- A frame is a string or is none.
carried : (x : Frame) → ((s : Bytes) × Carries x s) ⊎ ((s : Bytes) → Carries x s → ⊥)
carried (bulk s) = inl (s, carries_bulk)
carried (simple s) = inl (s, carries_simple)
carried (error s) = inr (λ t h. elim h [ ])
carried (integer z) = inr (λ t h. elim h [ ])
carried (array fs) = inr (λ t h. elim h [ ])
carried null = inr (λ t h. elim h [ ])

fitting : (k : Kind) (x : Frame) (fs : Frames) → Fits k x ⊎ ((e : Error) × Misfits k (cons x fs) e)
fitting any x fs = elim (carried x) [
  | inl (s, h) ↦ inl (fits_any h)
  | inr not ↦ inr (_, wrong_type not)
]
fitting text x fs = elim (carried x) [
  | inl (s, h) ↦ elim (Bool-cases (is_utf8 s)) [
    | inl u ↦ inl (fits_text h u)
    | inr not ↦ inr (_, not_text h not)
  ]
  | inr not ↦ inr (_, wrong_type not)
]

fitting_all : (ks : List Kind) (fs : Frames) → FitsAll ks fs ⊎ ((e : Error) × MisfitsAll ks fs e)
fitting_all [] nil = inl fits_none
fitting_all [] (cons x fs) = inr (_, extra)
fitting_all (k ∷ ks) nil = inr (_, first missing)
fitting_all (k ∷ ks) (cons x fs) = elim (fitting k x fs) [
  | inr (e, wrong) ↦ inr (e, first wrong)
  | inl fits ↦ elim (fitting_all ks fs) [
    | inl all ↦ inl (fits_more fits all)
    | inr (e, wrong) ↦ inr (e, later fits wrong)
  ]
]

FitsAll-get :
    {n : Frame} {name : Bytes} {fs : Frames}
    → Carries n name
    → is_utf8 name ≡ true
    → eq_ignore_ascii_case name (codes "GET") ≡ true
    → FitsAll (text ∷ []) fs
    → (c : Command) × Requests (array (cons n fs)) c
FitsAll-get hn un g (fits_more (fits_text {s} h u) fits_none) = (get s, requests_get hn un g h u)

FitsAll-set :
    {n : Frame} {name : Bytes} {fs : Frames}
    → Carries n name
    → is_utf8 name ≡ true
    → eq_ignore_ascii_case name (codes "SET") ≡ true
    → FitsAll (text ∷ any ∷ []) fs
    → (c : Command) × Requests (array (cons n fs)) c
FitsAll-set hn un g (fits_more (fits_text {s} h u) (fits_more (fits_any {s = t} k) fits_none)) =
    (set s t, requests_set hn un g h u k)

-- Every frame is one or the other.
pub Requests-or-Rejects : (x : Frame) → ((c : Command) × Requests x c) ⊎ ((e : Error) × Rejects x e)
Requests-or-Rejects (array nil) = inr (_, no_name missing)
Requests-or-Rejects (array (cons n fs)) = elim (fitting text n fs) [
  | inr (e, wrong) ↦ inr (e, no_name wrong)
  | inl (fits_text {s = name} h u) ↦ elim (Bool-cases (eq_ignore_ascii_case name (codes "GET"))) [
    | inl g ↦ elim (fitting_all (text ∷ []) fs) [
      | inl all ↦ inl (FitsAll-get h u g all)
      | inr (e, wrong) ↦ inr (e, bad_get h u g wrong)
    ]
    | inr not_get ↦ elim (Bool-cases (eq_ignore_ascii_case name (codes "SET"))) [
      | inl g ↦ elim (fitting_all (text ∷ any ∷ []) fs) [
        | inl all ↦ inl (FitsAll-set h u g all)
        | inr (e, wrong) ↦ inr (e, bad_set h u g wrong)
      ]
      | inr not_set ↦ inr (_, unsupported h u not_get not_set)
    ]
  ]
]
Requests-or-Rejects (simple s) = inr (_, no_array (λ fs e. cc))
Requests-or-Rejects (error s) = inr (_, no_array (λ fs e. cc))
Requests-or-Rejects (integer z) = inr (_, no_array (λ fs e. cc))
Requests-or-Rejects (bulk s) = inr (_, no_array (λ fs e. cc))
Requests-or-Rejects null = inr (_, no_array (λ fs e. cc))
