-- ===== src/Base/Control.antt =====
-- What a call of C code comes to: a value, or one of the ways not to return one.
use Prim.Native.Nat.{ℕ}
use mathlib.Core.Path.{◌≡◌, refl}
use mathlib.Core.Logic.{◌⊎◌, inl, inr}
use mathlib.Core.Bool.{Bool, true, false}
use mathlib.Core.Option.{Option, none, some}
use mathlib.Core.List.{List}
use anycore_pisa.Base.Lists.{get_elem?}
use anycore_pisa.Base.Tests.{if◌then◌else◌}

-- `aborted` is a failed `assert`, or a call of `fatal` or `panic`; `undefined` is an access outside
-- of an object or through a null pointer, or a read past the end of a file into a variable that was
-- never set; `out_of_fuel` is a loop that is still running when the fuel of its model is used up, and
-- `exited` is a `longjmp` to the end of the simulation.
pub data Failure : Type 0 where
  aborted undefined out_of_fuel exited : Failure

pub data Outcome {ℓ} (A : Type ℓ) : Type ℓ where
  ok : A → Outcome A
  fail : Failure → Outcome A

infixl 5 ◌>>=◌ ◌>>◌
abbrev pub ◌>>=◌ {ℓ κ} : {A : Type ℓ} {B : Type κ} → Outcome A → (A → Outcome B) → Outcome B
ok a >>= f = f a
fail e >>= f = fail e

abbrev pub ◌>>◌ {ℓ} : {B : Type ℓ} → Outcome (Unit {0}) → Outcome B → Outcome B
m >> k = m >>= λ _. k

abbrev pub assert : Bool → Outcome (Unit {0})
assert true = ok tt
assert false = fail aborted

-- An access of an array element, which C leaves undefined out of range.
abbrev pub or_undefined {ℓ} : {A : Type ℓ} → Option A → Outcome A
or_undefined none = fail undefined
or_undefined (some a) = ok a

abbrev pub at {ℓ} : {A : Type ℓ} → List A → ℕ → Outcome A
at xs i = or_undefined (get_elem? xs i)

-- What a chain that returns went through.
pub test-ok {ℓ} :
    {A : Type ℓ} (b : Bool) (o : Outcome A) (e : Failure) (a : A)
    → (if b then o else fail e) ≡ ok a
    → (b ≡ true) × (o ≡ ok a)
test-ok true o e a h = (refl, h)
test-ok false o e a h = absurd cc

pub bind-ok {ℓ κ} :
    {A : Type ℓ} {B : Type κ} (o : Outcome A) (f : A → Outcome B) (b : B)
    → (o >>= f) ≡ ok b
    → (a : A) × (o ≡ ok a) × (f a ≡ ok b)
bind-ok (ok a) f b h = (a, refl, h)
bind-ok (fail e) f b h = absurd cc

pub ok-injective {ℓ} : {A : Type ℓ} (a b : A) → ok a ≡ ok b → a ≡ b
ok-injective a b h = cc

pub either-ok {ℓ} :
    {A : Type ℓ} (b : Bool) (o p : Outcome A) (a : A)
    → (if b then o else p) ≡ ok a
    → (o ≡ ok a) ⊎ (p ≡ ok a)
either-ok true o p a h = inl h
either-ok false o p a h = inr h
