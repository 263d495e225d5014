-- ===== src/Net/Pack/Digits.antt =====
-- Numbers as bytes, the most significant first.
use native.Mathlib.Nat.{
  div-eq_of_lt, mul_assoc, mul-le-mul_right, mul-add-div_right, mod-add-div', one-le-pow, mod-lt,
  mul-add-mod_self_right, mod-eq_of_lt, two-pow-succ, add-mul,
}
use kssio.Prelude.{
  ℕ, zero, suc, ◌+◌, ◌*◌, ◌/◌, ◌%◌, ◌^◌, ◌<◌, ◌≤◌, ◌≡◌, List, [], ◌∷◌, arith, length, All, refl,
  sym, ap, ap₂, ◌∙◌,
}

-- The number that some bytes stand for, the most significant byte first, and the bytes of a number.
abbrev pub value_of : List ℕ → ℕ
value_of [] = 0
value_of (x ∷ xs) = x * 2 ^ (length xs * 8) + value_of xs

abbrev pub bytes_of : ℕ → ℕ → List ℕ
bytes_of zero v = []
bytes_of (suc k) v = v / 2 ^ (k * 8) % 256 ∷ bytes_of k v

four_more : (n : ℕ) → 2 ^ (4 + n) ≡ 16 * 2 ^ n
four_more n =
    let e : 4 + n ≡ suc (suc (suc (suc n))) = omega arith in
    ap (λ m. 2 ^ m) e
    ∙ omega (
      arith,
      two-pow-succ n,
      two-pow-succ (suc n),
      two-pow-succ (suc (suc n)),
      two-pow-succ (suc (suc (suc n))),
    )

pub next_power : (k : ℕ) → 2 ^ (suc k * 8) ≡ 256 * 2 ^ (k * 8)
next_power k =
    let n = k * 8 in
    let e : suc k * 8 ≡ 4 + (4 + n) = omega arith in
    ap (λ m. 2 ^ m) e ∙ omega (arith, four_more (4 + n), four_more n)

pub power-positive : (k : ℕ) → 0 < 2 ^ k
power-positive k = omega (arith, one-le-pow k 2 (omega arith))

pub value_of-below : (xs : List ℕ) → All (λ x. x < 256) xs → value_of xs < 2 ^ (length xs * 8)
value_of-below [] a = omega arith
value_of-below (x ∷ xs) (h, a) = omega (
  arith,
  next_power (length xs),
  value_of-below xs a,
  mul-le-mul_right {m = x} {n = 255} (2 ^ (length xs * 8)) (omega (arith, h)),
)

bytes_of-add : (k m v : ℕ) → bytes_of k (m * 2 ^ (k * 8) + v) ≡ bytes_of k v
bytes_of-add zero m v = refl
bytes_of-add (suc k) m v =
    let p = 2 ^ (k * 8) in
    let e : m * 2 ^ (suc k * 8) + v ≡ m * 256 * p + v = rw (next_power k, mul_assoc m 256 p) refl in
    ap (bytes_of (suc k)) e
    ∙ ap₂ ◌∷◌ (rw (mul-add-div_right (power-positive (k * 8)) (m * 256) v) (omega arith))
        (bytes_of-add k (m * 256) v)

pub bytes_of-value_of :
    (xs : List ℕ) → All (λ x. x < 256) xs → bytes_of (length xs) (value_of xs) ≡ xs
bytes_of-value_of [] a = refl
bytes_of-value_of (x ∷ xs) (h, a) =
    let small = value_of-below xs a in
    ap₂ ◌∷◌
      (rw (mul-add-div_right (power-positive (length xs * 8)) x (value_of xs), div-eq_of_lt small)
        (omega (arith, h)))
      (bytes_of-add (length xs) x (value_of xs) ∙ bytes_of-value_of xs a)

pub length-bytes_of : (k v : ℕ) → length (bytes_of k v) ≡ k
length-bytes_of zero v = refl
length-bytes_of (suc k) v = ap suc (length-bytes_of k v)

-- A number modulo 256 times another.
mod-more : (v p : ℕ) → 0 < p → v / p % 256 * p + v % p ≡ v % (256 * p)
mod-more v p positive =
    let q = v / p in
    let r = q % 256 * p + v % p in
    let q_parts : q ≡ q / 256 * 256 + q % 256 = omega arith in
    let parts : v ≡ q / 256 * (256 * p) + r = omega (
      arith,
      mod-add-div' v p,
      ap (λ x. x * p) q_parts,
      add-mul (q / 256 * 256) (q % 256) p,
      mul_assoc (q / 256) 256 p,
    ) in
    let below_256 : q % 256 ≤ 255 = omega arith in
    let small : r < 256 * p = omega (arith, mul-le-mul_right p below_256, mod-lt v positive) in
    sym (
      ap (λ x. x % (256 * p)) parts
      ∙ mul-add-mod_self_right (q / 256) (256 * p) r
      ∙ mod-eq_of_lt small)

pub value_of-bytes_of : (k v : ℕ) → value_of (bytes_of k v) ≡ v % 2 ^ (k * 8)
value_of-bytes_of zero v = omega arith
value_of-bytes_of (suc k) v =
    rw (length-bytes_of k v, value_of-bytes_of k v, next_power k)
      (mod-more v (2 ^ (k * 8)) (power-positive (k * 8)))

pub All-bytes_of : (k v : ℕ) → All (λ x. x < 256) (bytes_of k v)
All-bytes_of zero v = tt
All-bytes_of (suc k) v = (omega arith, All-bytes_of k v)
