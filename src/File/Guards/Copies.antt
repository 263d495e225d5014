-- ===== src/File/Guards/Copies.antt =====
-- What a copy of a guard does to what the guard holds.
use kssio.Prelude.Places.{at, set, at-length}
use kssio.Prelude.{ℕ, zero, suc, Option, none, some, List, [], ◌∷◌, ◌++◌, length, ◌≡◌, refl}
use kssio.File.Guards.{World, copy, destroy, held_by, increment, post_increment}

-- A place that is not the last one.
at-before :
    {A : Type 0} (xs : List (Option A)) (x : Option A) (i : ℕ) (a : A)
    → at xs i ≡ some a
    → at (set (length xs) none (xs ++ x ∷ [])) i ≡ some a
at-before [] x i a e = cc
at-before (y ∷ xs) x zero a e = e
at-before (y ∷ xs) x (suc i) a e = at-before xs x i a e

at-copied :
    {A : Type 0} (xs : List (Option A)) (x : Option A) (i : ℕ) (a : A)
    → at xs i ≡ some a
    → at (xs ++ x ∷ []) i ≡ some a
at-copied [] x i a e = cc
at-copied (y ∷ xs) x zero a e = e
at-copied (y ∷ xs) x (suc i) a e = at-copied xs x i a e

-- The postfix increment of a directory's iterator reads the next entry and closes the directory,
-- while the iterator goes on with it; and the end of the iterator closes it once more.
pub post_increment-closes :
    (w : World) (i h : ℕ)
    → at w.objects i ≡ some (some h)
    → let w' = post_increment i w in
      (at w'.objects i ≡ some (some h))
      × (w'.reads ≡ h ∷ w.reads)
      × (w'.closed ≡ h ∷ w.closed)
      × ((destroy i w').closed ≡ h ∷ h ∷ w.closed)
unfolding post_increment destroy copy held_by increment
post_increment-closes w i h e =
    let last = at-length w.objects (some h) in
    let kept = at-before w.objects (some (some h)) i (some h) e in
    let still = at-copied w.objects (some (some h)) i (some h) e in
    rw (e, kept, last, still) (refl, refl, refl, refl)
