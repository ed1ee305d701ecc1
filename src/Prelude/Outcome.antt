-- ===== src/Prelude/Outcome.antt =====
-- The ways a run of the code can end: with a value, in a failed `FSERVO_CHECK` or `assert`, or in an
-- access outside a block of memory or another step that C++ leaves undefined.
use mathlib.Core.Bool.{Bool, true, false}
use mathlib.Core.Option.{Option, none, some}

pub data Outcome {ℓ} (A : Type ℓ) : Type ℓ where
  done : A → Outcome A
  aborted : Outcome A
  overrun : Outcome A

infixl 5 ◌>>=◌ ◌>>◌
abbrev pub ◌>>=◌ {ℓ κ} : {A : Type ℓ} {B : Type κ} → Outcome A → (A → Outcome B) → Outcome B
done a >>= f = f a
aborted >>= f = aborted
overrun >>= f = overrun

abbrev pub ◌>>◌ {ℓ κ} : {A : Type ℓ} {B : Type κ} → Outcome A → Outcome B → Outcome B
m >> k = m >>= λ _. k

-- an access to memory, which is `none` outside the block
abbrev pub access {ℓ} : {A : Type ℓ} → Option A → Outcome A
access none = overrun
access (some a) = done a

-- `FSERVO_CHECK(e)`
abbrev pub check : Bool → Outcome (Unit {0})
check true = done tt
check false = aborted
