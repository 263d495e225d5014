-- ===== src/Net/ByteOrder.antt =====
-- Byte order: Sources/utility.cpp and the inline wrappers of Sources/utility.hpp.
-- A `float` and a `double` are the 32 and 64 bits of their representation, as the code's `memcpy`
-- calls see them; `big` is what IS_BIGENDIAN() finds on the machine.
pub mod RoundTrip
mod Tests
use kssio.Prelude.{ℕ, ◌+◌, ◌*◌, ◌/◌, ◌%◌, ◌^◌, Bool, List, [], ◌∷◌, if◌then◌else◌}

-- The four bytes of a `uint32_t` in the other order.
abbrev pub swap32 : ℕ → ℕ
swap32 u = u % 256 * 2 ^ 24 + u / 2 ^ 8 % 256 * 2 ^ 16 + u / 2 ^ 16 % 256 * 2 ^ 8 + u / 2 ^ 24 % 256

-- The two bytes of a `uint16_t` in the other order.
abbrev swap16 : ℕ → ℕ
swap16 u = u % 256 * 2 ^ 8 + u / 2 ^ 8 % 256

-- The loop over an iterator range, for values whose conversion is `f`.
convert : (ℕ → ℕ) → List ℕ → List ℕ
convert f [] = []
convert f (x ∷ xs) = f x ∷ convert f xs

module _ (big : Bool) where
  -- The C library's `htons`, `htonl` and their inverses, under the overloads' names.
  abbrev pub hton_16 : ℕ → ℕ
  hton_16 u = if big then u else swap16 u

  abbrev pub ntoh_16 : ℕ → ℕ
  ntoh_16 u = if big then u else swap16 u

  abbrev hton_32 : ℕ → ℕ
  hton_32 u = if big then u else swap32 u

  abbrev pub ntoh_32 : ℕ → ℕ
  ntoh_32 u = if big then u else swap32 u

  pub htonf : ℕ → ℕ
  htonf hostfloat = if big then hostfloat else hton_32 hostfloat

  pub ntohf : ℕ → ℕ
  ntohf netfloat = if big then netfloat else ntoh_32 netfloat

  -- On a little endian machine the first four bytes of a double are its low word.
  pub htond : ℕ → ℕ
  htond hostdouble =
      if big
      then hostdouble
      else (let u1 = ntoh_32 (hostdouble % 2 ^ 32) in
          let u2 = ntoh_32 (hostdouble / 2 ^ 32 % 2 ^ 32) in u2 + u1 * 2 ^ 32)

  pub ntohd : ℕ → ℕ
  ntohd netdouble =
      if big
      then netdouble
      else (let u1 = hton_32 (netdouble % 2 ^ 32) in
          let u2 = hton_32 (netdouble / 2 ^ 32 % 2 ^ 32) in u2 + u1 * 2 ^ 32)

  -- `hton(first, last)` and `ntoh(first, last)`.
  pub hton_range : (ℕ → ℕ) → List ℕ → List ℕ
  unfolding convert
  hton_range hton xs = if big then xs else convert hton xs

  pub ntoh_range : (ℕ → ℕ) → List ℕ → List ℕ
  unfolding convert
  ntoh_range ntoh xs = if big then xs else convert ntoh xs
