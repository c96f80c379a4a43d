-- ===== src/Common/Outcome.antt =====
-- How a call of the program ends: with a value, with a fault, or with the model's fuel used up.
use mathlib.Core.Path.{◌≡◌, refl, subst}
use mathlib.Core.Bool.{Bool, true, false}
use mathlib.Core.Option.{Option, none, some}
use timer_benchmarks.Common.Tests.{if◌then◌else◌}

-- an access outside a vector, a signed overflow, a failed CHECK or a fatal message, a null pointer
pub data Fault : Type 0 where
  out_of_range overflow check_failed null_pointer : Fault

-- what a computation comes to
pub data Run {ℓ} (A : Type ℓ) : Type ℓ where
  out_of_fuel : Run A
  fault : Fault → Run A
  ok : A → Run A

infixl 5 ◌>>=◌ ◌>>◌
abbrev pub ◌>>=◌ {κ ℓ} : {Y : Type κ} {X : Type ℓ} → Run X → (X → Run Y) → Run Y
out_of_fuel >>= next = out_of_fuel
fault why >>= next = fault why
ok x >>= next = next x

abbrev pub ◌>>◌ {ℓ} : {B : Type ℓ} → Run (Unit {0}) → Run B → Run B
m >> k = m >>= λ _. k

abbrev pub require : Bool → Fault → Run (Unit {0})
require true e = ok tt
require false e = fault e

abbrev pub from_option {ℓ} : {A : Type ℓ} → Fault → Option A → Run A
from_option e (some a) = ok a
from_option e none = fault e

-- The run ends: with a value in `P`, or with a fault that `F` allows. It does not run out of fuel.
pub data Ends {ℓ κ} {A : Type ℓ} (F : Fault → Type 0) (P : A → Type κ) : Run A → Type (ℓ ⊔ κ) where
  value : {a : A} → P a → Ends F P (ok a)
  stop : {e : Fault} → F e → Ends F P (fault e)

abbrev pub NoFault : Fault → Type 0
NoFault e = ⊥

-- the run returns a value in `P`
abbrev pub Returns {ℓ κ} : {A : Type ℓ} → (A → Type κ) → Run A → Type (ℓ ⊔ κ)
Returns P r = Ends NoFault P r

module _ {ℓ κ} {A : Type ℓ} {F : Fault → Type 0} {P : A → Type κ} where
  pub Ends-bind {κ' ℓ'} :
      {B : Type ℓ'} {f : A → Run B} {Q : B → Type κ'} {first : Run A}
      → Ends F P first
      → ((x : A) → P x → Ends F Q (f x))
      → Ends F Q (first >>= f)
  Ends-bind (stop why) continue = stop why
  Ends-bind (value p) continue = continue _ p

  pub Ends-map {κ'} :
      {run : Run A} {Q : A → Type κ'} → Ends F P run → ((x : A) → P x → Q x) → Ends F Q run
  Ends-map (stop why) weaken = stop why
  Ends-map (value p) weaken = value (weaken _ p)

  pub Ends-if :
      (test : Bool) {yes no : Run A}
      → (test ≡ true → Ends F P yes)
      → (test ≡ false → Ends F P no)
      → Ends F P (if test then yes else no)
  Ends-if false on_true on_false = on_false refl
  Ends-if true on_true on_false = on_true refl

  -- a run that returns ends, whatever faults are allowed
  pub Returns-Ends : {r : Run A} → Returns P r → Ends F P r
  Returns-Ends (value p) = value p
  Returns-Ends (stop e) = absurd e

module _ {ℓ κ} {A : Type ℓ} {P : A → Type κ} where
  -- what holds of the value that a run is known to return
  pub Returns-at : {r : Run A} {a : A} → Returns P r → r ≡ ok a → P a
  Returns-at {a = a} h e = held (subst (Returns P) e h)
    where
      held : Returns P (ok a) → P a
      held (value p) = p

-- If the run returns, what it returns is in `P`.
pub data IfOk {ℓ κ} {A : Type ℓ} (P : A → Type κ) : Run A → Type (ℓ ⊔ κ) where
  runs_out : IfOk P out_of_fuel
  faults : {e : Fault} → IfOk P (fault e)
  returns : {a : A} → P a → IfOk P (ok a)

module _ {ℓ κ} {A : Type ℓ} {P : A → Type κ} where
  pub IfOk-bind {κ' ℓ'} :
      {B : Type ℓ'} {f : A → Run B} {Q : B → Type κ'} {first : Run A}
      → IfOk P first
      → ((x : A) → P x → IfOk Q (f x))
      → IfOk Q (first >>= f)
  IfOk-bind runs_out continue = runs_out
  IfOk-bind faults continue = faults
  IfOk-bind (returns p) continue = continue _ p

  pub Ends-IfOk : {F : Fault → Type 0} {run : Run A} → Ends F P run → IfOk P run
  Ends-IfOk (stop why) = faults
  Ends-IfOk (value p) = returns p

  pub IfOk-map {κ'} :
      {run : Run A} {Q : A → Type κ'} → IfOk P run → ((x : A) → P x → Q x) → IfOk Q run
  IfOk-map runs_out weaken = runs_out
  IfOk-map faults weaken = faults
  IfOk-map (returns p) weaken = returns (weaken _ p)

  pub IfOk-if :
      (test : Bool) {yes no : Run A} → IfOk P yes → IfOk P no → IfOk P (if test then yes else no)
  IfOk-if false on_true on_false = on_false
  IfOk-if true on_true on_false = on_true

  pub IfOk-any : ((x : A) → P x) → (run : Run A) → IfOk P run
  IfOk-any h out_of_fuel = runs_out
  IfOk-any h (fault why) = faults
  IfOk-any h (ok x) = returns (h x)

  pub IfOk-at : {run : Run A} {a : A} → IfOk P run → run ≡ ok a → P a
  IfOk-at {a = a} h e = held (subst (IfOk P) e h)
    where
      held : IfOk P (ok a) → P a
      held (returns p) = p
