-- ===== src/Prelude/Bits.antt =====
-- `&` with a mask, as arithmetic, and checks of a small range by evaluation.
use Prim.Native.Nat.{
  ℕ, zero, suc, ◌+◌, ◌*◌, ◌/◌, ◌%◌, ◌^◌, ◌≤◌, ◌<◌, min, bit_and, digits, bit_and-bitwise,
}
use mathlib.Core.Path.{◌≡◌, refl, ap, sym, ◌∙◌}
use mathlib.Core.Bool.{Bool, true, ◌&&◌}
use native.Mathlib.Nat.{pow-suc, pow-succ', div-div-eq-div-mul}
use native.Mathlib.Omega.{arith}

-- Whether a test succeeds on each number under the bound.
unfoldable pub passes_below : (ℕ → Bool) → ℕ → Bool
passes_below test zero = true
passes_below test (suc bound) = passes_below test bound && test bound

pub passes_below-lookup :
    (test : ℕ → Bool) (bound : ℕ)
    → passes_below test bound ≡ true
    → (x : ℕ) → x < bound
    → test x ≡ true
unfolding passes_below
passes_below-lookup test zero table x small = absurd (omega arith)
passes_below-lookup test (suc bound) table x small =
    ground (arith, λ (t : passes_below test bound ≡ true). passes_below-lookup test bound t x)

-- The digits of a conjunction, taken with more fuel than the first number needs.
abbrev common : ℕ → ℕ → ℕ → ℕ
common = digits (λ rest. zero) min

common_surplus : (b a fuel more : ℕ) → a ≤ fuel → fuel ≤ more → common more a b ≡ common fuel a b
common_surplus b zero zero zero enough wider = refl
common_surplus b zero zero (suc more) enough wider = refl
common_surplus b zero (suc fuel) zero enough wider = absurd (omega arith)
common_surplus b zero (suc fuel) (suc more) enough wider = refl
common_surplus b (suc a) zero more enough wider = absurd (omega arith)
common_surplus b (suc a) (suc fuel) zero enough wider = absurd (omega arith)
common_surplus b (suc a) (suc fuel) (suc more) enough wider =
    omega (common_surplus (b / 2) (suc a / 2) fuel more (omega arith) (omega arith), arith)

common_enough : (a b : ℕ) → common a (suc a / 2) (b / 2) ≡ bit_and (suc a / 2) (b / 2)
common_enough a b =
    let half = suc a / 2 in
    common_surplus (b / 2) half half a (omega arith) (omega arith)
    ∙ sym (bit_and-bitwise half (b / 2))

-- One binary digit of a conjunction.
bit_and-halves : (b a : ℕ) → bit_and a b ≡ bit_and (a / 2) (b / 2) * 2 + min (a % 2) (b % 2)
bit_and-halves b zero = omega (arith, bit_and-bitwise 0 b, bit_and-bitwise 0 (b / 2))
bit_and-halves b (suc a) = omega (arith, bit_and-bitwise (suc a) b, common_enough a b)

nothing_in_common : (bound a : ℕ) → a ≤ bound → bit_and a 0 ≡ 0
nothing_in_common bound zero h = refl
nothing_in_common zero (suc a) h = absurd (omega arith)
nothing_in_common (suc bound) (suc a) h =
    omega (arith, nothing_in_common bound (suc a / 2) (omega arith), bit_and-halves 0 (suc a))

-- Three binary digits at a time.
bit_and-octal : (a m : ℕ) → bit_and a (m * 8 + 7) ≡ bit_and (a / 2 / 2 / 2) m * 8 + a % 8
bit_and-octal a m =
    let one : (m * 8 + 7) / 2 ≡ m * 4 + 3 = omega arith in
    let two : (m * 4 + 3) / 2 ≡ m * 2 + 1 = omega arith in
    let three : (m * 2 + 1) / 2 ≡ m = omega arith in
    omega (
      arith,
      bit_and-halves (m * 8 + 7) a,
      ap (bit_and (a / 2)) one,
      bit_and-halves (m * 4 + 3) (a / 2),
      ap (bit_and (a / 2 / 2)) two,
      bit_and-halves (m * 2 + 1) (a / 2 / 2),
      ap (bit_and (a / 2 / 2 / 2)) three,
    )

-- `v & 0xFF` is the low byte.
pub bit_and_byte : (a : ℕ) → bit_and a 255 ≡ a % 256
bit_and_byte a =
    let high = a / 2 / 2 / 2 / 2 / 2 / 2 in
    omega (
      arith,
      bit_and-octal a 31,
      bit_and-octal (a / 2 / 2 / 2) 3,
      bit_and-halves 3 high,
      bit_and-halves 1 (high / 2),
      nothing_in_common (high / 2 / 2) (high / 2 / 2) (omega arith),
    )

bit_and_double : (a m : ℕ) → bit_and a (2 * m) ≡ bit_and (a / 2) m * 2
bit_and_double a m =
    let e : 2 * m / 2 ≡ m = omega arith in
    omega (arith, bit_and-halves (2 * m) a, ap (bit_and (a / 2)) e)

-- A mask that was shifted left looks at the number shifted right.
pub bit_and_shifted : (s a m : ℕ) → bit_and a (m * 2 ^ s) ≡ bit_and (a / 2 ^ s) m * 2 ^ s
bit_and_shifted zero a m =
    let e : m * 1 ≡ m = omega arith in let d : a / 1 ≡ a = omega arith in rw (e, d) (omega arith)
bit_and_shifted (suc s) a m =
    let e : m * 2 ^ suc s ≡ 2 * (m * 2 ^ s) = omega (arith, ap (λ (t : ℕ). m * t) (pow-suc 2 s)) in
    let d : a / 2 ^ suc s ≡ a / 2 / 2 ^ s =
      ap (λ (t : ℕ). a / t) (pow-succ' 2 s) ∙ sym (div-div-eq-div-mul a 2 (2 ^ s)) in
    rw (e, d)
      (omega (
        arith,
        bit_and_double a (m * 2 ^ s),
        bit_and_shifted s (a / 2) m,
        ap (λ (t : ℕ). bit_and (a / 2 / 2 ^ s) m * t) (pow-suc 2 s),
      ))

pub bit_and-zero : (a : ℕ) → bit_and a 0 ≡ 0
bit_and-zero a = nothing_in_common a a (omega arith)
