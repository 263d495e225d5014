-- ===== src/File/Records/Concat.antt =====
-- Records of one size, one behind the other.
use native.Mathlib.Nat.{zero-mul, suc-mul}
use kssio.Prelude.{
  concat, sym, length-append, ℕ, zero, suc, ◌+◌, ◌*◌, ◌<◌, ◌≡◌, length, take, drop, get_or, List,
  [], ◌∷◌, ◌++◌, Text, All, arith, refl, ap, ◌∙◌,
}

-- Every record has the size.
abbrev pub IsSized : ℕ → List Text → Type 0
IsSized size = All (λ r. length r ≡ size)

-- The list with a record at an index, where one more is appended if the index is its length.
abbrev pub put : List Text → ℕ → Text → List Text
put rs i r = take i rs ++ (r ∷ drop (suc i) rs)

pub take_behind : (r s : Text) (n m : ℕ) → n ≡ length r + m → take n (r ++ s) ≡ r ++ take m s
take_behind [] s n m e = let e' : n ≡ m = omega arith in rw e' refl
take_behind (c ∷ r) s zero m e = absurd (omega arith)
take_behind (c ∷ r) s (suc n) m e = ap (λ t. c ∷ t) (take_behind r s n m (omega arith))

pub drop_behind : (r s : Text) (n m : ℕ) → n ≡ length r + m → drop n (r ++ s) ≡ drop m s
drop_behind [] s n m e = let e' : n ≡ m = omega arith in rw e' refl
drop_behind (c ∷ r) s zero m e = absurd (omega arith)
drop_behind (c ∷ r) s (suc n) m e = drop_behind r s n m (omega arith)

take_none : (n : ℕ) → Path Text (take n []) []
take_none zero = refl
take_none (suc n) = refl

pub drop_none : (n : ℕ) → Path Text (drop n []) []
drop_none zero = refl
drop_none (suc n) = refl

module _ (size : ℕ) where
  pub take-concat :
      (i : ℕ) (rs : List Text) → IsSized size rs → take (i * size) (concat rs) ≡ concat (take i rs)
  take-concat zero rs sized = rw zero-mul refl
  take-concat (suc i) [] sized = take_none (suc i * size)
  take-concat (suc i) (r ∷ rs) sized =
      take_behind r (concat rs) (suc i * size) (i * size) (omega (arith, suc-mul i size, sized.0))
      ∙ ap (λ t. r ++ t) (take-concat i rs sized.1)

  pub drop-concat :
      (i : ℕ) (rs : List Text) → IsSized size rs → drop (i * size) (concat rs) ≡ concat (drop i rs)
  drop-concat zero rs sized = rw zero-mul refl
  drop-concat (suc i) [] sized = drop_none (suc i * size)
  drop-concat (suc i) (r ∷ rs) sized =
      drop_behind r (concat rs) (suc i * size) (i * size) (omega (arith, suc-mul i size, sized.0))
      ∙ drop-concat i rs sized.1

  pub length-concat : (rs : List Text) → IsSized size rs → length (concat rs) ≡ length rs * size
  length-concat [] sized = rw zero-mul refl
  length-concat (r ∷ rs) sized = omega (
    arith,
    length-append r (concat rs),
    length-concat rs sized.1,
    suc-mul (length rs) size,
    sized.0,
  )

-- A record that is there is the first behind those before it.
pub drop-get_or :
    (i : ℕ) (rs : List Text) → i < length rs → drop i rs ≡ get_or rs i [] ∷ drop (suc i) rs
drop-get_or i [] h = absurd (omega arith)
drop-get_or zero (r ∷ rs) h = refl
drop-get_or (suc i) (r ∷ rs) h = drop-get_or i rs (omega arith)

pub get_or-IsSized :
    (size i : ℕ) (rs : List Text) → IsSized size rs → i < length rs → length (get_or rs i []) ≡ size
get_or-IsSized size i [] sized h = absurd (omega arith)
get_or-IsSized size zero (r ∷ rs) sized h = sized.0
get_or-IsSized size (suc i) (r ∷ rs) sized h = get_or-IsSized size i rs sized.1 (omega arith)

pub drop-drop : (k n m : ℕ) (s : Text) → k ≡ n + m → drop k s ≡ drop m (drop n s)
drop-drop k zero m s e = let e' : k ≡ m = omega arith in rw e' refl
drop-drop k (suc n) m [] e = drop_none k ∙ sym (drop_none m)
drop-drop zero (suc n) m (c ∷ s) e = absurd (omega arith)
drop-drop (suc k) (suc n) m (c ∷ s) e = drop-drop k n m s (omega arith)
