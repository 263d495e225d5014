-- ===== src/Poller/Timeout.antt =====
-- The timeout that the loop hands to `poll`.
use kssio.Prelude.{ltb, ◌%◌, if◌then◌else◌, ℕ, refl, arith, min, ◌-◌, ◌≡◌, ◌^◌, ◌<◌}
use kssio.Prelude.Int.{leb_ℤ, eqb_ℤ, ℤ, pos, negsuc}

abbrev pub int_max : ℕ
int_max = 2147483647

-- `milliseconds::max()`, a count of 64 bits.
abbrev pub milliseconds_max : ℤ
milliseconds_max = pos 9223372036854775807

-- `static_cast<int>` of a 64-bit count.
abbrev to_int : ℤ → ℤ
to_int (pos n) = let m = n % 2 ^ 32 in if ltb m (2 ^ 31) then pos m else negsuc (2 ^ 32 - 1 - m)
to_int (negsuc n) = let m = n % 2 ^ 32 in if ltb m (2 ^ 31) then negsuc m else pos (2 ^ 32 - 1 - m)

unfoldable pub timeout_from_interval : ℤ → ℤ
timeout_from_interval ms =
    if eqb_ℤ ms (pos 0)
    then pos 0
    else if eqb_ℤ ms milliseconds_max
    then negsuc 0
    else if leb_ℤ ms (pos int_max)
    then to_int ms
    else pos int_max

-- The values of an `int`.
abbrev pub IsInt : ℤ → Type 0
IsInt (pos n) = n < 2 ^ 31
IsInt (negsuc n) = n < 2 ^ 31

to_int-IsInt : (z : ℤ) → IsInt (to_int z)
to_int-IsInt (pos n) = ground arith
to_int-IsInt (negsuc n) = ground arith

timeout_from_interval-IsInt : (ms : ℤ) → IsInt (timeout_from_interval ms)
unfolding timeout_from_interval
timeout_from_interval-IsInt ms = ground (arith, to_int-IsInt ms)

-- Zero does not wait; the largest count of 64 bits waits forever; any smaller count waits that
-- long, or as long as an `int` can say; and a negative count of 32 bits stays what it is. Whatever
-- the count, the timeout is an `int`.
pub timeout_from_interval_cases :
    (n m : ℕ) (ms : ℤ)
    → n < 2 ^ 63 - 1
    → m < 2 ^ 31
    → (timeout_from_interval (pos 0) ≡ pos 0)
      × (timeout_from_interval milliseconds_max ≡ negsuc 0)
      × (timeout_from_interval (pos n) ≡ pos (min n int_max))
      × (timeout_from_interval (negsuc m) ≡ negsuc m)
      × IsInt (timeout_from_interval ms)
unfolding timeout_from_interval
timeout_from_interval_cases n m ms h k =
    (refl, refl, ground arith, ground arith, timeout_from_interval-IsInt ms)
