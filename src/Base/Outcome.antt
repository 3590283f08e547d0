-- ===== src/Base/Outcome.antt =====
-- The outcomes of a C function: a value, an access outside the object it is given (which C leaves
-- undefined), or a failed `assert`, which ends the program.
use mathlib.Core.Bool.{Bool, true, false}
use mathlib.Core.Option.{Option, none, some}

pub data Result {ℓ} (A : Type ℓ) : Type ℓ where
  ok : A → Result A
  fault : Result A
  aborted : Result A

infixl 5 ◌>>=◌ ◌>>◌
abbrev pub ◌>>=◌ {ℓ κ} : {A : Type ℓ} {B : Type κ} → Result A → (A → Result B) → Result B
ok a >>= f = f a
fault >>= f = fault
aborted >>= f = aborted

abbrev pub ◌>>◌ {ℓ} : {B : Type ℓ} → Result (Unit {0}) → Result B → Result B
ok _ >> k = k
fault >> k = fault
aborted >> k = aborted

-- `assert(b)`.
abbrev pub assert : Bool → Result (Unit {0})
assert true = ok tt
assert false = aborted

-- A read that must lie inside the object.
abbrev pub in_object {ℓ} : {A : Type ℓ} → Option A → Result A
in_object none = fault
in_object (some a) = ok a
