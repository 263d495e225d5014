-- ===== src/Net/ByteOrder/Tests.antt =====
-- Concrete conversions.
use kssio.Prelude.{All, false, ◌≡◌, ◌∷◌, [], refl, arith, reverse}
use kssio.Net.ByteOrder.{htonf, ntohf, htond, ntohd, hton_range, ntoh_range, ntoh_16, hton_16}
use kssio.Net.ByteOrder.RoundTrip.{bytes8, ranges_given_back}

double_swapped : htond false 0x0102030405060708 ≡ 0x0807060504030201
unfolding htond
double_swapped = refl

-- The values of the overloads for integers.
short_and_back :
    ntoh_range false (ntoh_16 false) (hton_range false (hton_16 false) (1 ∷ 515 ∷ []))
    ≡ 1 ∷ 515 ∷ []
unfolding ntoh_range hton_range
short_and_back = refl

ranges_given_back_example :
    (ntoh_range false (ntohf false) (hton_range false (htonf false) (0x3f800000 ∷ []))
      ≡ 0x3f800000 ∷ [])
    × (ntoh_range false (ntohd false) (hton_range false (htond false) (0x3ff0000000000000 ∷ []))
        ≡ 0x3ff0000000000000 ∷ [])
    × All (λ d. bytes8 (htond false d) ≡ reverse (bytes8 d)) (0x3ff0000000000000 ∷ [])
ranges_given_back_example =
    ranges_given_back false (0x3f800000 ∷ []) (0x3ff0000000000000 ∷ []) (omega arith, tt)
      (omega arith, tt)
