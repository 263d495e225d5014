-- ===== src/Net/Pack/Bytes.antt =====
-- `pack` and `unpack` for every number of bytes.
use native.Mathlib.Nat.{mod-eq_of_lt, pow-le-pow_right}
use mathlib.Core.Path.{subst}
use kssio.Prelude.{
  ℕ, zero, suc, ◌+◌, ◌-◌, ◌*◌, ◌%◌, ◌^◌, ◌<◌, ◌≤◌, ◌≡◌, List, [], ◌∷◌, ◌++◌, arith, get_or, length,
  All, refl, sym, ap, ap₂, ◌∙◌, drop, length-append,
}
use kssio.Net.Pack.{pack, pack_loop, unpack, unpack_loop, unpack_byte, bit_and_window}
use kssio.Net.Pack.Digits.{
  value_of, bytes_of, next_power, power-positive, value_of-below, bytes_of-value_of,
  length-bytes_of, value_of-bytes_of, All-bytes_of,
}

-- The bytes before the last, as the loop of `pack` adds them up.
abbrev high : List ℕ → ℕ
high [] = 0
high (x ∷ xs) = x * 2 ^ (suc (length xs) * 8) + high xs

value_of-snoc : (xs : List ℕ) (z : ℕ) → value_of (xs ++ z ∷ []) ≡ high xs + z
value_of-snoc [] z = omega arith
value_of-snoc (x ∷ xs) z =
    let e : length (xs ++ z ∷ []) ≡ suc (length xs) = omega (arith, length-append xs (z ∷ [])) in
    rw (e, value_of-snoc xs z) (omega arith)

-- What stands at an index, and behind it.
get_or-drop :
    (i : ℕ) (ar : List ℕ) (x : ℕ) (rest : List ℕ) → drop i ar ≡ x ∷ rest → get_or ar i 0 ≡ x
get_or-drop zero [] x rest e = cc
get_or-drop zero (y ∷ ar) x rest e = cc
get_or-drop (suc i) [] x rest e = cc
get_or-drop (suc i) (y ∷ ar) x rest e = get_or-drop i ar x rest e

drop-suc :
    (i : ℕ) (ar : List ℕ) (x : ℕ) (rest : List ℕ) → drop i ar ≡ x ∷ rest → drop (suc i) ar ≡ rest
drop-suc zero [] x rest e = cc
drop-suc zero (y ∷ ar) x rest e = cc
drop-suc (suc i) [] x rest e = cc
drop-suc (suc i) (y ∷ ar) x rest e = drop-suc i ar x rest e

drop-next :
    (i : ℕ) (ar : List ℕ) (x : ℕ) (rest : List ℕ) → drop i ar ≡ x ∷ rest → drop (i + 1) ar ≡ rest
drop-next i ar x rest e = let next : i + 1 ≡ suc i = omega arith in rw next (drop-suc i ar x rest e)

module _ (w n : ℕ) where
  pack_loop-high :
      (ar xs : List ℕ) (z i result : ℕ)
      → drop i ar ≡ xs ++ z ∷ []
      → n ≡ i + suc (length xs)
      → result + high xs < 2 ^ w
      → pack_loop w n ar (length xs) i result ≡ result + high xs
  unfolding pack_loop
  pack_loop-high ar [] z i result e k small = omega arith
  pack_loop-high ar (x ∷ xs) z i result e k small =
      let t = x * 2 ^ (suc (length xs) * 8) in
      let at : get_or ar i 0 ≡ x = get_or-drop i ar x (xs ++ z ∷ []) e in
      let shift : (n - i - 1) * 8 ≡ suc (length xs) * 8 = omega (arith, k) in
      let t_fits : t < 2 ^ w = omega (arith, small) in
      let fits : (result + t % 2 ^ w) % 2 ^ w ≡ result + t =
        rw (mod-eq_of_lt t_fits) (mod-eq_of_lt (omega (arith, small))) in
      let rest =
        pack_loop-high ar xs z (i + 1) (result + t) (drop-next i ar x (xs ++ z ∷ []) e)
          (omega (arith, k)) (omega (arith, small)) in
      rw (pack_loop, at, shift, fits, rest) (omega arith)

  unpack_loop-bytes_of :
      (v rounds i : ℕ) → n ≡ i + rounds → n * 8 ≤ w → unpack_loop w n v rounds i ≡ bytes_of rounds v
  unfolding unpack_loop unpack_byte
  unpack_loop-bytes_of v zero i k fits = refl
  unpack_loop-bytes_of v (suc rounds) i k fits =
      let s = rounds * 8 in
      let shift : (n - i - 1) * 8 ≡ s = omega (arith, k) in
      let room : 256 * 2 ^ s ≤ 2 ^ w =
        rw (← next_power rounds) (pow-le-pow_right (omega arith) (omega (arith, k, fits))) in
      let mask : 255 * 2 ^ s % 2 ^ w ≡ 255 * 2 ^ s =
        mod-eq_of_lt (omega (arith, room, power-positive s)) in
      ap₂ ◌∷◌ (rw (unpack_byte, shift, mask) (bit_and_window s v))
        (unpack_loop-bytes_of v rounds (i + 1) (omega (arith, k)) fits)

-- The last of some bytes.
snoc-view : (x : ℕ) (xs : List ℕ) → (mid : List ℕ) × (z : ℕ) × (x ∷ xs ≡ mid ++ z ∷ [])
snoc-view x [] = ([], x, refl)
snoc-view x (y ∷ ys) = let (mid, z, e) = snoc-view y ys in (x ∷ mid, z, ap (λ l. x ∷ l) e)

drop-length-snoc : (xs : List ℕ) (z : ℕ) → drop (length xs) (xs ++ z ∷ []) ≡ z ∷ []
drop-length-snoc [] z = refl
drop-length-snoc (x ∷ xs) z = drop-length-snoc xs z

pack-snoc :
    (w : ℕ) (xs : List ℕ) (z : ℕ)
    → value_of (xs ++ z ∷ []) < 2 ^ w
    → pack w (suc (length xs)) (xs ++ z ∷ []) ≡ value_of (xs ++ z ∷ [])
unfolding pack
pack-snoc w xs z small =
    let ar = xs ++ z ∷ [] in
    let last : get_or ar (length xs) 0 ≡ z =
      get_or-drop (length xs) ar z [] (drop-length-snoc xs z) in
    let rounds : suc (length xs) - 1 ≡ length xs = omega arith in
    let sum = value_of-snoc xs z in
    rw
      (
        rounds,
        last,
        pack_loop-high w (suc (length xs)) ar xs z 0 z refl (omega arith)
            (omega (arith, sum, small)),
        sum,
      )
      (omega arith)

pack-value_of :
    (w : ℕ) (ar : List ℕ)
    → 0 < length ar
    → length ar * 8 ≤ w
    → All (λ x. x < 256) ar
    → pack w (length ar) ar ≡ value_of ar
pack-value_of w [] positive fits a = omega (arith, positive)
pack-value_of w (x ∷ xs) positive fits a =
    let (mid, z, e) = snoc-view x xs in
    let small : value_of (x ∷ xs) < 2 ^ w =
      omega (arith, value_of-below (x ∷ xs) a, pow-le-pow_right {n = 2} (omega arith) fits) in
    let n : length (x ∷ xs) ≡ suc (length mid) =
      ap length e ∙ omega (arith, length-append mid (z ∷ [])) in
    rw n (
      ap (pack w (suc (length mid))) e
      ∙ pack-snoc w mid z (subst (λ l. value_of l < 2 ^ w) e small)
      ∙ sym (ap value_of e))

unpack-bytes_of : (w n v : ℕ) → n * 8 ≤ w → unpack w n v ≡ bytes_of n v
unfolding unpack
unpack-bytes_of w n v fits = unpack_loop-bytes_of w n v n 0 (omega arith) fits

pack-bytes_of : (w n v : ℕ) → 0 < n → n * 8 ≤ w → pack w n (bytes_of n v) ≡ v % 2 ^ (n * 8)
pack-bytes_of w n v positive fits =
    let e = length-bytes_of n v in
    let packed = pack-value_of w (bytes_of n v) (rw e positive) (rw e fits) (All-bytes_of n v) in
    (rw e at packed) ∙ value_of-bytes_of n v

-- For every number of bytes that a type has room for, packing some bytes and unpacking the value
-- gives the bytes back, and unpacking a value and packing its bytes gives the value of so many bytes.
pub pack_and_unpack :
    (w : ℕ) (ar : List ℕ) (v : ℕ)
    → 0 < length ar
    → length ar * 8 ≤ w
    → All (λ x. x < 256) ar
    → (unpack w (length ar) (pack w (length ar) ar) ≡ ar)
      × (pack w (length ar) (unpack w (length ar) v) ≡ v % 2 ^ (length ar * 8))
pack_and_unpack w ar v positive fits a =
    let n = length ar in
    (
      rw (pack-value_of w ar positive fits a, unpack-bytes_of w n (value_of ar) fits)
          (bytes_of-value_of ar a),
      rw (unpack-bytes_of w n v fits) (pack-bytes_of w n v positive fits),
    )
