-- ===== src/Prelude/Effect.antt =====
-- Calls that change an object and return or throw: the object's state goes in and comes out, also
-- where the call throws.
use mathlib.Core.Bool.{Bool, true, false}
use kssio.Prelude.{◌≡◌, ap}
use kssio.Prelude.Errors.{Exception, Result, ok, thrown, Contract, require, failed}

abbrev pub Effect : Type 0 → Type 0 → Type 0
Effect S A = S → Result A × S

infixl 5 ◌>>=◌ ◌>>◌
abbrev pub ◌>>=◌ : {S A B : Type 0} → Effect S A → (A → Effect S B) → Effect S B
◌>>=◌ m f s = let (r, s') = m s in elim r [ ok a ↦ f a s' | thrown e ↦ (thrown e, s') ]

abbrev pub ◌>>◌ : {S A B : Type 0} → Effect S A → Effect S B → Effect S B
m >> k = m >>= λ _. k

module _ {S : Type 0} where
  abbrev pub throw : {A : Type 0} → Exception → Effect S A
  throw e s = (thrown e, s)

  abbrev pub pure : {A : Type 0} → A → Effect S A
  pure a s = (ok a, s)

  abbrev pub gets : {A : Type 0} → (S → A) → Effect S A
  gets f s = (ok (f s), s)

  abbrev pub modify : (S → S) → Effect S (Unit {0})
  modify f s = (ok tt, f s)

  abbrev pub lift : {A : Type 0} → Result A → Effect S A
  lift r s = (r, s)

  abbrev pub when : Bool → Effect S (Unit {0}) → Effect S (Unit {0})
  when true m = m
  when false m = pure tt

  -- A check of the contract library, or a condition of the code.
  abbrev pub assert : Contract → Bool → Effect S (Unit {0})
  assert k b = lift (require b (failed k))

  abbrev pub unless_throw : Bool → Exception → Effect S (Unit {0})
  unless_throw b e = lift (require b e)

-- What follows a call that returns.
pub after_ok :
    {S A B : Type 0}
    → (m : Effect S A) → (f : A → Effect S B) → {s s' : S} → {a : A} → m s ≡ (ok a, s')
    → (m >>= f) s ≡ f a s'
after_ok {S = S} {B = B} m f e =
    ap (λ z. elim z.0 as (λ x. Result B × S) [ ok a ↦ f a z.1 | thrown x ↦ (thrown x, z.1) ]) e

-- What follows a call that throws.
pub after_thrown :
    {S A B : Type 0}
    → (m : Effect S A) → (f : A → Effect S B) → {s s' : S} → {e : Exception} → m s ≡ (thrown e, s')
    → (m >>= f) s ≡ (thrown e, s')
after_thrown {S = S} {B = B} m f e =
    ap (λ z. elim z.0 as (λ x. Result B × S) [ ok a ↦ f a z.1 | thrown x ↦ (thrown x, z.1) ]) e
