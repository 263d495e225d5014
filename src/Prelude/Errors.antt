-- ===== src/Prelude/Errors.antt =====
-- Exceptions as values: the classes that the code throws, and a result type for calls that may
-- throw. The class `Eof` and its neighbours are those of Sources/utility.hpp.
use Prim.Native.Nat.{ℕ}
use mathlib.Core.Path.{◌≡◌, refl}
use mathlib.Core.Bool.{Bool, true, false}
use mathlib.Core.Logic.{◌⊎◌, inl, inr}
use kssio.Prelude.Lists.{Text}

-- The four kinds of checks of the contract library. A failed one stops the call; what the
-- library does then is not modelled.
pub data Contract : Type 0 where
  parameters preconditions conditions postconditions : Contract

-- `foreign k` is an exception of the caller's own functions.
pub data Exception : Type 0 where
  eof bad_alloc : Exception
  invalid_state invalid_argument out_of_range runtime_error : Text → Exception
  system_error : ℕ → Text → Exception
  failed : Contract → Exception
  foreign : ℕ → Exception

pub data Result {ℓ} (A : Type ℓ) : Type ℓ where
  ok : A → Result A
  thrown : Exception → Result A

-- An exception skips the rest.
infixl 5 ◌>>=◌ ◌>>◌
abbrev pub ◌>>=◌ {κ ℓ} : {B : Type κ} {A : Type ℓ} → Result A → (A → Result B) → Result B
ok value >>= rest = rest value
thrown e >>= rest = thrown e

abbrev pub ◌>>◌ {κ} : {B : Type κ} → Result (Unit {0}) → Result B → Result B
step >> rest = step >>= λ nothing. rest

-- `if (!b) throw e;`
abbrev pub require : Bool → Exception → Result (Unit {0})
require true e = ok tt
require false e = thrown e

-- `contract::parameters({ KSS_EXPR(b) })` and its three siblings.
abbrev pub check : Contract → Bool → Result (Unit {0})
check k b = require b (failed k)

-- What a system call reports: a value, or the `errno` that it sets.
pub data Sys {ℓ} (A : Type ℓ) : Type ℓ where
  done : A → Sys A
  fails : ℕ → Sys A

-- `if (call fails) throw system_error(errno, system_category(), what);`
abbrev pub or_throw {ℓ} : {A : Type ℓ} → Text → Sys A → Result A
or_throw what (done a) = ok a
or_throw what (fails errno) = thrown (system_error errno what)

pub >>=-assoc {ℓ κ λ'} :
    {A : Type ℓ} {B : Type κ} {C : Type λ'} (m : Result A) (f : A → Result B) (g : B → Result C)
    → ((m >>= f) >>= g) ≡ (m >>= λ a. (f a >>= g))
>>=-assoc (ok a) f g = refl
>>=-assoc (thrown e) f g = refl

pub Result-cases {ℓ} :
    {A : Type ℓ} (r : Result A) → ((a : A) × (r ≡ ok a)) ⊎ ((e : Exception) × (r ≡ thrown e))
Result-cases (ok a) = inl (a, refl)
Result-cases (thrown e) = inr (e, refl)

pub Sys-cases {ℓ} :
    {A : Type ℓ} (r : Sys A) → ((a : A) × (r ≡ done a)) ⊎ ((errno : ℕ) × (r ≡ fails errno))
Sys-cases (done a) = inl (a, refl)
Sys-cases (fails errno) = inr (errno, refl)
