-- ===== src/Frame/Reader/Ensures.antt =====
-- Postconditions of readers.
use mini_redis.Prelude.{◌≡◌, refl, subst, ◌≢◌, Bool, true, false, if◌then◌else◌}
use mini_redis.Buf.{Cursor}
use mini_redis.Frame.{Error}
use mini_redis.Frame.Reader.{Outcome, ok, err, panicked, out_of_fuel, Reader, continue}

-- The run neither panicked nor ran out of fuel; `P` holds of its value and the cursor that it
-- leaves, or `Q` of its error and cursor.
pub data Ensures {ℓ κ} {A : Type ℓ} (P : A → Cursor → Type κ) (Q : Error → Cursor → Type κ)
    : Outcome A → Type (ℓ ⊔ κ) where
  returns : {a : A} {c : Cursor} → P a c → Ensures P Q (ok a c)
  fails : {e : Error} {c : Cursor} → Q e c → Ensures P Q (err e c)

module _ {ℓ κ} {A : Type ℓ} {P : A → Cursor → Type κ} {Q : Error → Cursor → Type κ} where
  pub Ensures-ok : {r : Outcome A} {a : A} {c : Cursor} → Ensures P Q r → r ≡ ok a c → P a c
  Ensures-ok {a} {c} (returns {a = a'} {c = c'} h) e = subst (λ x. P x c) (cc) (subst (P a') (cc) h)
  Ensures-ok (fails h) e = cc

  pub Ensures-err : {r : Outcome A} {x : Error} {c : Cursor} → Ensures P Q r → r ≡ err x c → Q x c
  Ensures-err (returns h) e = cc
  Ensures-err {x} {c} (fails {e = e'} {c = c'} h) e = subst (λ y. Q y c) (cc) (subst (Q e') (cc) h)

  pub Ensures-ne-panicked : {r : Outcome A} → Ensures P Q r → r ≢ panicked
  Ensures-ne-panicked (returns h) e = cc
  Ensures-ne-panicked (fails h) e = cc

  pub Ensures-ne-out_of_fuel : {r : Outcome A} → Ensures P Q r → r ≢ out_of_fuel
  Ensures-ne-out_of_fuel (returns h) e = cc
  Ensures-ne-out_of_fuel (fails h) e = cc

  pub Ensures-if :
      (b : Bool) (x y : Outcome A)
      → (b ≡ true → Ensures P Q x)
      → (b ≡ false → Ensures P Q y)
      → Ensures P Q (if b then x else y)
  Ensures-if true x y hx hy = hx refl
  Ensures-if false x y hx hy = hy refl

  -- The same for a choice between two readers.
  pub Ensures-branch :
      (b : Bool) (x y : Reader A) (c : Cursor)
      → (b ≡ true → Ensures P Q (x c))
      → (b ≡ false → Ensures P Q (y c))
      → Ensures P Q ((if b then x else y) c)
  Ensures-branch true x y c hx hy = hx refl
  Ensures-branch false x y c hx hy = hy refl

module _ {ℓ κ ℓ' κ'} {A : Type ℓ} {B : Type ℓ'} {P : A → Cursor → Type κ}
    {Q : Error → Cursor → Type κ} {P' : B → Cursor → Type κ'} {Q' : Error → Cursor → Type κ'} where
  -- The equation tells the continuation what the first run returned.
  pub Ensures-bind :
      {r : Outcome A} {f : A → Reader B}
      → Ensures P Q r
      → ((a : A) (c : Cursor) → r ≡ ok a c → P a c → Ensures P' Q' (f a c))
      → ((e : Error) (c : Cursor) → Q e c → Q' e c)
      → Ensures P' Q' (continue r f)
  Ensures-bind (returns {a} {c} h) k q = k a c refl h
  Ensures-bind (fails {e} {c} h) k q = fails (q e c h)

module _ {ℓ κ κ'} {A : Type ℓ} {P : A → Cursor → Type κ} {Q : Error → Cursor → Type κ}
    {P' : A → Cursor → Type κ'} {Q' : Error → Cursor → Type κ'} where
  pub Ensures-map :
      {r : Outcome A}
      → Ensures P Q r
      → ((a : A) (c : Cursor) → P a c → P' a c)
      → ((e : Error) (c : Cursor) → Q e c → Q' e c)
      → Ensures P' Q' r
  Ensures-map (returns {a} {c} h) k q = returns (k a c h)
  Ensures-map (fails {e} {c} h) k q = fails (q e c h)

module _ {ℓ ℓ'} {A : Type ℓ} {B : Type ℓ'} where
  -- Inversion of a bind that succeeded.
  pub continue-eq-ok :
      (r : Outcome A) (f : A → Reader B) {b : B} {c : Cursor}
      → continue r f ≡ ok b c
      → (a : A) × (c' : Cursor) × (r ≡ ok a c') × (f a c' ≡ ok b c)
  continue-eq-ok (ok a c') f e = (a, c', refl, e)
  continue-eq-ok (err x c') f e = cc
  continue-eq-ok panicked f e = cc
  continue-eq-ok out_of_fuel f e = cc
