-- ===== src/Net/Address.antt =====
-- `IpV4Address` and `MacAddress` of Sources/interface.cpp and Sources/interface.hpp. An address is
-- the number that the class holds. The tokenizer belongs to another library: it is a parameter.
pub mod Octets
pub mod RoundTrip
mod Tests
use kssio.Prelude.{
  ℕ, zero, suc, ◌+◌, ◌%◌, Bool, true, false, not, List, [], ◌∷◌, ◌++◌, leb, ltb, if◌then◌else◌,
  ◌==◌, is_empty, get_or, Text, codes, Exception, Result, ok, thrown, parameters, postconditions,
  invalid_argument, ◌>>=◌, ◌>>◌, require, check,
}
use kssio.Net.Pack.{pack, unpack}
use kssio.Net.Text.{print, print_padded, stoul}

-- `_addr` of the two classes: 32 bits, and 64 bits of which an address uses 48.
abbrev pub IpV4Address : Type 0
IpV4Address = ℕ

abbrev pub MacAddress : Type 0
MacAddress = ℕ

-- `throwInvalidIp` and `throwInvalidMac`.
abbrev pub invalid_ip : Text → Exception
invalid_ip addr_str =
    invalid_argument (codes "'" ++ addr_str ++ codes "' is not a valid IP address")

abbrev pub invalid_mac : Text → Exception
invalid_mac addr_str =
    invalid_argument (codes "'" ++ addr_str ++ codes "' is not a valid MAC address")

-- One round of the constructors' loops, on the token that the iterator stands at.
pub read_octet : ℕ → Exception → Text → Result ℕ
read_octet base invalid token = if is_empty token then thrown invalid else do
  r ← stoul base token
  require (not (r.1 == 0)) invalid
  require (leb r.0 255) invalid
  ok (r.0 % 256)

-- The loop: the bytes read, and the tokens that are left.
pub read_octets : ℕ → Exception → ℕ → List Text → Result (List ℕ × List Text)
read_octets base invalid zero tokens = ok ([], tokens)
read_octets base invalid (suc rounds) [] = thrown invalid
read_octets base invalid (suc rounds) (t ∷ tokens) = do
  b ← read_octet base invalid t
  r ← read_octets base invalid rounds tokens
  ok (b ∷ r.0, r.1)

-- `for (i...) { oss << ar[i] << sep; } oss << ar[last];`
pub write_octets : (ℕ → Text) → ℕ → List ℕ → ℕ → ℕ → Text
write_octets put sep ar zero i = put (get_or ar i 0)
write_octets put sep ar (suc rounds) i =
    put (get_or ar i 0) ++ (sep ∷ write_octets put sep ar rounds (i + 1))

abbrev pub put_ip : ℕ → Text
put_ip = print 10

abbrev pub put_mac : ℕ → Text
put_mac = print_padded 16 2

module _ (tokenize : Text → Text → Bool → List Text) where
  -- `IpV4Address(const string&)`
  pub ip_of_string : Text → Result IpV4Address
  unfolding read_octets
  ip_of_string addr_str = do
    check parameters (not (is_empty addr_str))
    r ← read_octets 10 (invalid_ip addr_str) 4 (tokenize addr_str (codes ".") false)
    require (is_empty r.1) (invalid_ip addr_str)
    ok (pack 32 4 r.0)

  -- `IpV4Address::operator string()`
  pub ip_to_string : IpV4Address → Result Text
  unfolding write_octets
  ip_to_string addr = do
    let oss = write_octets put_ip b'.' (unpack 32 4 addr) 3 0
    again ← ip_of_string oss
    check postconditions (again == addr)
    ok oss

  -- `MacAddress(const string&)`
  pub mac_of_string : Text → Result MacAddress
  unfolding read_octets
  mac_of_string addr_str = do
    check parameters (not (is_empty addr_str))
    r ← read_octets 16 (invalid_mac addr_str) 6 (tokenize addr_str (codes ":") false)
    require (is_empty r.1) (invalid_mac addr_str)
    ok (pack 64 6 r.0)

  -- `MacAddress::operator string()`
  pub mac_to_string : MacAddress → Result Text
  unfolding write_octets
  mac_to_string addr = do
    let oss = write_octets put_mac b':' (unpack 64 6 addr) 5 0
    again ← mac_of_string oss
    check postconditions (again == addr)
    ok oss

-- `operator bool`, and the two comparators, of both classes.
unfoldable pub to_bool : ℕ → Bool
to_bool addr = not (addr == 0)

unfoldable equals : ℕ → ℕ → Bool
equals a b = a == b

unfoldable pub less : ℕ → ℕ → Bool
less a b = ltb a b
