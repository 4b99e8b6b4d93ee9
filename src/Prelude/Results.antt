-- ===== src/Prelude/Results.antt =====
-- How a C function can end, other than by returning: `exit(n)`, an access that C leaves undefined,
-- or, for a loop run on fuel, not yet.
use cs.Prelude.Tests.{if◌then◌else◌}
use Prim.Native.Nat.{ℕ}
use mathlib.Core.Path.{◌≡◌, refl}
use mathlib.Core.Bool.{Bool}
use mathlib.Core.Option.{Option, none, some}

pub data Outcome {ℓ} (A : Type ℓ) : Type ℓ where
  ok : A → Outcome A
  exit : ℕ → Outcome A
  undefined : Outcome A
  out_of_fuel : Outcome A

infixl 5 ◌>>=◌ ◌>>◌
abbrev pub ◌>>=◌ {ℓ κ} : {A : Type ℓ} {B : Type κ} → Outcome A → (A → Outcome B) → Outcome B
ok a >>= f = f a
exit n >>= f = exit n
undefined >>= f = undefined
out_of_fuel >>= f = out_of_fuel

abbrev pub ◌>>◌ {ℓ} : {B : Type ℓ} → Outcome (Unit {0}) → Outcome B → Outcome B
m >> k = m >>= λ _. k

-- `if (!test) exit(n);`
abbrev pub require : Bool → ℕ → Outcome (Unit {0})
require test n = if test then ok tt else exit n

abbrev pub from_option {ℓ} : {A : Type ℓ} → Option A → Outcome A → Outcome A
from_option none e = e
from_option (some a) e = ok a

-- A chain that returns has run its first part, and the rest on what that returned.
module _ {ℓ κ} {A : Type ℓ} {B : Type κ} (rest : A → Outcome B) where
  pub >>=_returns :
      (first : Outcome A) (b : B)
      → first >>= rest ≡ ok b
      → (a : A) × (first ≡ ok a) × (rest a ≡ ok b)
  >>=_returns (ok a) b run = (a, refl, run)
  >>=_returns (exit status) b run = cc
  >>=_returns undefined b run = cc
  >>=_returns out_of_fuel b run = cc

-- A call ends, and what it returns, if it does, has the property.
abbrev pub Ends {ℓ} : {A : Type ℓ} → (A → Type 0) → Outcome A → Type 0
Ends P (ok a) = P a
Ends P (exit status) = Unit
Ends P undefined = Unit
Ends P out_of_fuel = ⊥

-- The property of a chain, from that of its first part.
module _ {ℓ κ} {A : Type ℓ} {B : Type κ} (P : A → Type 0) (Q : B → Type 0) where
  pub Ends->>= :
      (first : Outcome A) (rest : A → Outcome B)
      → Ends P first
      → ((a : A) → P a → Ends Q (rest a))
      → Ends Q (first >>= rest)
  Ends->>= (ok a) rest h k = k a h
  Ends->>= (exit status) rest h k = tt
  Ends->>= undefined rest h k = tt
  Ends->>= out_of_fuel rest h k = absurd h
