-- ===== src/Net/ByteOrder/RoundTrip.antt =====
-- The conversions of Sources/utility.cpp undo one another, and reverse the bytes.
use kssio.Prelude.{
  ℕ, ◌/◌, ◌%◌, ◌^◌, ◌<◌, ◌≡◌, refl, ap₂, Bool, true, false, List, [], ◌∷◌, reverse, arith, All,
}
use kssio.Net.ByteOrder.{swap32, htonf, ntohf, htond, ntohd, hton_range, ntoh_range}

swap32-swap32 : (u : ℕ) → u < 2 ^ 32 → swap32 (swap32 u) ≡ u
swap32-swap32 u h = omega arith

-- The eight bytes of a number, the least significant first.
abbrev pub bytes8 : ℕ → List ℕ
bytes8 d =
    d % 256
    ∷ d / 2 ^ 8 % 256
    ∷ d / 2 ^ 16 % 256
    ∷ d / 2 ^ 24 % 256
    ∷ d / 2 ^ 32 % 256
    ∷ d / 2 ^ 40 % 256
    ∷ d / 2 ^ 48 % 256
    ∷ d / 2 ^ 56 % 256
    ∷ []

ntohf-htonf : (big : Bool) (f : ℕ) → f < 2 ^ 32 → ntohf big (htonf big f) ≡ f
unfolding ntohf htonf
ntohf-htonf true f h = refl
ntohf-htonf false f h = swap32-swap32 f h

ntohd-htond : (big : Bool) (d : ℕ) → d < 2 ^ 64 → ntohd big (htond big d) ≡ d
unfolding ntohd htond
ntohd-htond true d h = refl
ntohd-htond false d h = omega arith

htond_reverses : (d : ℕ) → d < 2 ^ 64 → bytes8 (htond false d) ≡ reverse (bytes8 d)
unfolding htond
htond_reverses d h = ground arith

-- A range is given back if each of its values is.
ntoh_range-hton_range :
    (big : Bool) (P : ℕ → Type 0) (hton ntoh : ℕ → ℕ)
    → ((x : ℕ) → P x → ntoh (hton x) ≡ x)
    → (xs : List ℕ) → All P xs
    → ntoh_range big ntoh (hton_range big hton xs) ≡ xs
unfolding ntoh_range hton_range
ntoh_range-hton_range true P hton ntoh inverse xs h = refl
ntoh_range-hton_range false P hton ntoh inverse [] h = refl
ntoh_range-hton_range false P hton ntoh inverse (x ∷ xs) h =
    ap₂ ◌∷◌ (inverse x h.0) (ntoh_range-hton_range false P hton ntoh inverse xs h.1)

each_reversed :
    (ds : List ℕ)
    → All (λ d. d < 2 ^ 64) ds
    → All (λ d. bytes8 (htond false d) ≡ reverse (bytes8 d)) ds
each_reversed [] h = tt
each_reversed (d ∷ ds) (small, h) = (htond_reverses d small, each_reversed ds h)

-- Converting a range of floats, or one of doubles, to network order and back gives the range back,
-- on either kind of machine; and on a little endian one the eight bytes of each double come out
-- reversed, although the code swaps two words of four bytes.
pub ranges_given_back :
    (big : Bool) (fs ds : List ℕ)
    → All (λ f. f < 2 ^ 32) fs
    → All (λ d. d < 2 ^ 64) ds
    → (ntoh_range big (ntohf big) (hton_range big (htonf big) fs) ≡ fs)
      × (ntoh_range big (ntohd big) (hton_range big (htond big) ds) ≡ ds)
      × All (λ d. bytes8 (htond false d) ≡ reverse (bytes8 d)) ds
ranges_given_back big fs ds hf hd = (
  ntoh_range-hton_range big (λ f. f < 2 ^ 32) (htonf big) (ntohf big) (ntohf-htonf big) fs hf,
  ntoh_range-hton_range big (λ d. d < 2 ^ 64) (htond big) (ntohd big) (ntohd-htond big) ds hd,
  each_reversed ds hd,
)
