-- ===== src/Net/Address/Octets.antt =====
-- Every byte is read back from its print, in decimal and in hexadecimal, by a check of all bytes.
use kssio.Prelude.{
  ℕ, ◌<◌, ◌≡◌, ◌≢◌, refl, Bool, true, false, not, ◌&&◌, ◌==◌, arith, [], ◌∷◌, is_empty, Lacks, Text,
  Exception, Result, ok, thrown,
}
use kssio.Prelude.Bits.{passes_below, passes_below-lookup}
use kssio.Net.Text.{print, print_padded, stoul}
use kssio.Net.Address.{read_octet, put_ip, put_mac}

reads : Result ℕ → ℕ → Bool
reads (ok v) b = v == b
reads (thrown e) b = false

reads_sound : (r : Result ℕ) (b : ℕ) → reads r b ≡ true → r ≡ ok b
unfolding reads
reads_sound (ok v) b h = ground arith
reads_sound (thrown e) b h = ground arith

lacks : ℕ → Text → Bool
lacks c [] = true
lacks c (d ∷ s) = not (d == c) && lacks c s

lacks_sound : (c : ℕ) (s : Text) → lacks c s ≡ true → Lacks c s
unfolding lacks
lacks_sound c [] h = tt
lacks_sound c (d ∷ s) h = ground (arith, lacks_sound c s)

-- What a printed byte is good for.
abbrev pub IsOctet : ℕ → ℕ → Exception → Text → ℕ → Type 0
IsOctet base sep invalid s b = (read_octet base invalid s ≡ ok b) × (s ≢ []) × Lacks sep s

ne_nil : (s : Text) → not (is_empty s) ≡ true → s ≢ []
ne_nil [] h = cc
ne_nil (c ∷ s) h = λ e. cc

octet_test : ℕ → ℕ → Exception → (ℕ → Text) → ℕ → Bool
octet_test base sep invalid put b =
    reads (read_octet base invalid (put b)) b && (not (is_empty (put b)) && lacks sep (put b))

octet_test_sound :
    (base sep : ℕ) (invalid : Exception) (put : ℕ → Text) (b : ℕ)
    → octet_test base sep invalid put b ≡ true
    → IsOctet base sep invalid (put b) b
unfolding octet_test
octet_test_sound base sep invalid put b h = (
  reads_sound (read_octet base invalid (put b)) b (ground arith),
  ne_nil (put b) (ground arith),
  lacks_sound sep (put b) (ground arith),
)

ip_table : (e : Exception) → passes_below (octet_test 10 b'.' e put_ip) 256 ≡ true
unfolding passes_below octet_test reads lacks read_octet stoul print
ip_table e = refl

mac_table : (e : Exception) → passes_below (octet_test 16 b':' e put_mac) 256 ≡ true
unfolding passes_below octet_test reads lacks read_octet stoul print_padded
mac_table e = refl

pub put_ip-IsOctet : (e : Exception) (b : ℕ) → b < 256 → IsOctet 10 b'.' e (put_ip b) b
put_ip-IsOctet e b h =
    octet_test_sound 10 b'.' e put_ip b (passes_below-lookup _ 256 (ip_table e) b h)

pub put_mac-IsOctet : (e : Exception) (b : ℕ) → b < 256 → IsOctet 16 b':' e (put_mac b) b
put_mac-IsOctet e b h =
    octet_test_sound 16 b':' e put_mac b (passes_below-lookup _ 256 (mac_table e) b h)
