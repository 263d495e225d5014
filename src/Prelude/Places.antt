-- ===== src/Prelude/Places.antt =====
-- Lists of places, some of which are empty: what some objects weigh together.
use Prim.Native.Nat.{ℕ, zero, suc, ◌+◌}
use mathlib.Core.Path.{◌≡◌, refl}
use mathlib.Core.Bool.{Bool, true, false}
use mathlib.Core.List.{List, [], ◌∷◌, ◌++◌}
use native.Mathlib.Omega.{arith}
use kssio.Prelude.Tests.{◌==◌}
use mathlib.Core.Option.{Option, none, some}
use kssio.Prelude.Lists.{length}

module _ {A : Type 0} where
  abbrev pub at : List (Option A) → ℕ → Option A
  at [] i = none
  at (x ∷ xs) zero = x
  at (x ∷ xs) (suc i) = at xs i

  abbrev pub set : ℕ → Option A → List (Option A) → List (Option A)
  set i o [] = []
  set zero o (x ∷ xs) = o ∷ xs
  set (suc i) o (x ∷ xs) = x ∷ set i o xs

  abbrev pub weight : (A → ℕ) → Option A → ℕ
  weight f none = 0
  weight f (some a) = f a

  abbrev pub total : (A → ℕ) → List (Option A) → ℕ
  total f [] = 0
  total f (x ∷ xs) = weight f x + total f xs

  pub at-set :
      (i j : ℕ) (o : Option A) (xs : List (Option A))
      → (i == j) ≡ false
      → at (set i o xs) j ≡ at xs j
  at-set i j o [] e = refl
  at-set zero zero o (x ∷ xs) e = cc
  at-set zero (suc j) o (x ∷ xs) e = refl
  at-set (suc i) zero o (x ∷ xs) e = refl
  at-set (suc i) (suc j) o (x ∷ xs) e = at-set i j o xs (ground arith)

  pub at-length : (xs : List (Option A)) (a : A) → at (xs ++ some a ∷ []) (length xs) ≡ some a
  at-length [] a = refl
  at-length (x ∷ xs) a = at-length xs a

  module _ (f : A → ℕ) where
    -- A new object behind the others.
    pub total-new :
        (o : Option A) (xs : List (Option A)) → total f (xs ++ o ∷ []) ≡ total f xs + weight f o
    total-new o [] = omega arith
    total-new o (x ∷ xs) = omega (arith, total-new o xs)

    -- An object in the place of another.
    pub total-set :
        (i : ℕ) (old : A) (o : Option A) (xs : List (Option A))
        → at xs i ≡ some old
        → total f (set i o xs) + f old ≡ total f xs + weight f o
    total-set i old o [] e = cc
    total-set zero old o (x ∷ xs) e = rw e (omega arith)
    total-set (suc i) old o (x ∷ xs) e = omega (arith, total-set i old o xs e)

    -- An object, or none, that is taken away.
    pub total-clear :
        (i : ℕ) (xs : List (Option A)) → total f (set i none xs) + weight f (at xs i) ≡ total f xs
    total-clear i [] = omega arith
    total-clear zero (x ∷ xs) = omega arith
    total-clear (suc i) (x ∷ xs) = omega (arith, total-clear i xs)

-- How often a number occurs.
abbrev pub one_if : Bool → ℕ
one_if true = 1
one_if false = 0

abbrev pub occurrences : ℕ → List ℕ → ℕ
occurrences h [] = 0
occurrences h (g ∷ gs) = one_if (g == h) + occurrences h gs
