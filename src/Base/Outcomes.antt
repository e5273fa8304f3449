-- ===== src/Base/Outcomes.antt =====
-- Calls that may raise an exception.
use mathlib.Core.Option.{Option, none, some}

pub data Outcome {ℓ} (A : Type ℓ) : Type ℓ where
  returned : A → Outcome A
  raised : Outcome A

abbrev pub or_raise {ℓ} : {A : Type ℓ} → Option A → Outcome A
or_raise none = raised
or_raise (some a) = returned a

infixl 5 ◌>>=◌
abbrev pub ◌>>=◌ {ℓ κ} : {A : Type ℓ} {B : Type κ} → Outcome A → (A → Outcome B) → Outcome B
returned a >>= f = f a
raised >>= f = raised
