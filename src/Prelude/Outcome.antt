-- ===== src/Prelude/Outcome.antt =====
-- Stateful code that may return an error, panic, or need more rounds than its fuel. An error keeps
-- the state that the code left behind: nothing is rolled back.
use sparreal_os.Prelude.{Bool, true, false}

pub data Run {ℓ κ ι} (E : Type ℓ) (S : Type κ) (A : Type ι) : Type (ℓ ⊔ κ ⊔ ι) where
  ok : A → S → Run E S A
  err : E → S → Run E S A
  panic : Run E S A
  out_of_fuel : Run E S A

module _ {ℓ κ} {E : Type ℓ} {S : Type κ} where
  abbrev pub and_then {ι μ} :
      {A : Type ι} {B : Type μ} → Run E S A → (A → S → Run E S B) → Run E S B
  and_then (ok a s) f = f a s
  and_then (err e s) f = err e s
  and_then panic f = panic
  and_then out_of_fuel f = out_of_fuel

  infixl 5 ◌>>=◌ ◌>>◌
  abbrev pub ◌>>=◌ {ι μ} :
      {A : Type ι} {B : Type μ} → (S → Run E S A) → (A → S → Run E S B) → S → Run E S B
  ◌>>=◌ m f s = and_then (m s) f

  abbrev pub ◌>>◌ {ι} : {B : Type ι} → (S → Run E S (Unit {0})) → (S → Run E S B) → S → Run E S B
  ◌>>◌ m k s = and_then (m s) (λ _. k)

  abbrev pub pure {ι} : {A : Type ι} → A → S → Run E S A
  pure a s = ok a s

  abbrev pub throw {ι} : {A : Type ι} → E → S → Run E S A
  throw e s = err e s

  -- A Rust `assert`, an index check or an overflow check: the code panics where the test fails.
  abbrev pub require : Bool → S → Run E S (Unit {0})
  require true s = ok tt s
  require false s = panic

-- The run neither panics nor runs out of fuel; `P` holds where it returns, `Q` where it fails.
pub data Ensures {ℓ κ ι} {E : Type ℓ} {S : Type κ} {A : Type ι} (P : A → S → Type 0)
    (Q : E → S → Type 0) : Run E S A → Type (ℓ ⊔ κ ⊔ ι) where
  returns : {a : A} {s : S} → P a s → Ensures P Q (ok a s)
  fails : {e : E} {s : S} → Q e s → Ensures P Q (err e s)

module _ {ℓ κ ι} {E : Type ℓ} {S : Type κ} {A : Type ι} {P : A → S → Type 0}
    {Q : E → S → Type 0} where
  pub bind {μ} :
      {B : Type μ} {P' : B → S → Type 0} {Q' : E → S → Type 0} {r : Run E S A}
      {f : A → S → Run E S B}
      → Ensures P Q r
      → ((a : A) (s : S) → P a s → Ensures P' Q' (f a s))
      → ((e : E) (s : S) → Q e s → Q' e s)
      → Ensures P' Q' (and_then r f)
  bind (returns p) next weaken = next _ _ p
  bind (fails q) next weaken = fails (weaken _ _ q)

  pub mono :
      {P' : A → S → Type 0} {Q' : E → S → Type 0} {r : Run E S A}
      → Ensures P Q r
      → ((a : A) (s : S) → P a s → P' a s)
      → ((e : E) (s : S) → Q e s → Q' e s)
      → Ensures P' Q' r
  mono (returns p) weaken weaken' = returns (weaken _ _ p)
  mono (fails q) weaken weaken' = fails (weaken' _ _ q)
