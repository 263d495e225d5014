-- ===== src/Net/Pack.antt =====
-- The templates `pack<UInt, N>` and `unpack<UInt, N>` of Sources/utility.hpp, for an unsigned
-- type of `w` bits. An array is a list of bytes.
pub mod Digits
pub mod Bytes
mod Tests
use kssio.Prelude.{
  ℕ, zero, suc, ◌+◌, ◌-◌, ◌*◌, ◌/◌, ◌%◌, ◌^◌, ◌<◌, ◌≡◌, List, [], ◌∷◌, arith, get_or, bit_and,
}
use native.Mathlib.Nat.{mul-div_cancel, one-le-pow}
use kssio.Prelude.Bits.{bit_and_shifted, bit_and_byte}

module _ (w n : ℕ) where
  -- `for (size_t i = 0; i < N-1; ++i)`, with the rounds that are left.
  pack_loop : List ℕ → ℕ → ℕ → ℕ → ℕ
  pack_loop ar zero i result = result
  pack_loop ar (suc rounds) i result =
      pack_loop ar rounds (i + 1) ((result + get_or ar i 0 * 2 ^ ((n - i - 1) * 8) % 2 ^ w) % 2 ^ w)

  unfoldable pub pack : List ℕ → ℕ
  unfolding pack_loop
  pack ar = pack_loop ar (n - 1) 0 (get_or ar (n - 1) 0)

  -- `(uint8_t)((value & (UInt(0xFF) << shift)) >> shift)`
  unpack_byte : ℕ → ℕ → ℕ
  unpack_byte value shift = bit_and value (255 * 2 ^ shift % 2 ^ w) / 2 ^ shift % 256

  unpack_loop : ℕ → ℕ → ℕ → List ℕ
  unpack_loop value zero i = []
  unpack_loop value (suc rounds) i =
      unpack_byte value ((n - i - 1) * 8) ∷ unpack_loop value rounds (i + 1)

  unfoldable pub unpack : ℕ → List ℕ
  unfolding unpack_loop unpack_byte
  unpack value = unpack_loop value n 0

-- The mask and the shift select the byte at `s`.
pub bit_and_window : (s v : ℕ) → bit_and v (255 * 2 ^ s) / 2 ^ s % 256 ≡ v / 2 ^ s % 256
bit_and_window s v =
    rw (bit_and_shifted s v 255, mul-div_cancel _ (one-le-pow s 2 (omega arith)), bit_and_byte)
      (omega arith)

-- What `unpack` finds, without masks.
pub unpack_four :
    (v : ℕ)
    → unpack 32 4 v ≡ v / 2 ^ 24 % 256 ∷ v / 2 ^ 16 % 256 ∷ v / 2 ^ 8 % 256 ∷ v / 2 ^ 0 % 256 ∷ []
unfolding unpack
unpack_four v =
    rw (← bit_and_window 24 v, ← bit_and_window 16 v, ← bit_and_window 8 v, ← bit_and_window 0 v)

pub unpack_six :
    (v : ℕ)
    → unpack 64 6 v
      ≡ v / 2 ^ 40 % 256
        ∷ v / 2 ^ 32 % 256
        ∷ v / 2 ^ 24 % 256
        ∷ v / 2 ^ 16 % 256
        ∷ v / 2 ^ 8 % 256
        ∷ v / 2 ^ 0 % 256
        ∷ []
unfolding unpack
unpack_six v = rw (
  ← bit_and_window 40 v,
  ← bit_and_window 32 v,
  ← bit_and_window 24 v,
  ← bit_and_window 16 v,
  ← bit_and_window 8 v,
  ← bit_and_window 0 v,
)

-- Unpacking an IPv4 address into four bytes and packing them again gives the address.
pub pack-unpack_four : (v : ℕ) → v < 2 ^ 32 → pack 32 4 (unpack 32 4 v) ≡ v
unfolding pack
pack-unpack_four v h = rw unpack_four (omega arith)

-- Unpacking the low six bytes of a 64-bit value and packing them again keeps those six bytes.
pub pack-unpack_six : (v : ℕ) → pack 64 6 (unpack 64 6 v) ≡ v % 2 ^ 48
unfolding pack
pack-unpack_six v = rw unpack_six (omega arith)
