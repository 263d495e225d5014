-- ===== src/Net/Interface/Apple.antt =====
-- The version of getMacAddresses of Sources/interface.cpp for Apple systems, where the hardware
-- addresses stand among the entries of `getifaddrs`.
use kssio.Prelude.{
  ℕ, Bool, false, Option, none, some, List, [], ◌∷◌, ◌==◌, if◌then◌else◌, length, Text, codes,
  Result, ok, Sys, done, or_throw, check, conditions, ◌>>=◌, ◌>>◌, ◌≡◌,
}
use kssio.Net.Pack.{pack}
use kssio.Net.Address.{to_bool}
use kssio.Net.Interface.{MacAddrMap, System, insert}

-- A `sockaddr`, and the `sdl_alen` bytes of its address where it is a `sockaddr_dl`.
pub record LinkAddr : Type 0 where
  pub sa_family : ℕ
  pub lladdr : List ℕ

abbrev af_link : ℕ
af_link = 18

abbrev is_link : Option LinkAddr → Bool
is_link none = false
is_link (some saddr) = saddr.sa_family == af_link

-- `macFromSockAddr`
mac_from_sock_addr : Option LinkAddr → Result ℕ
mac_from_sock_addr none = ok 0
mac_from_sock_addr (some saddr) = do
  check conditions (saddr.sa_family == af_link)
  ok (if length saddr.lladdr == 6 then pack 64 6 saddr.lladdr else 0)

-- The loop over the entries, of which the name and the address are looked at.
apple_mac_loop : List (Text × Option LinkAddr) → MacAddrMap → Result MacAddrMap
unfolding insert mac_from_sock_addr
apple_mac_loop [] ret = ok ret
apple_mac_loop ((ifa_name, ifa_addr) ∷ rest) ret =
    let skip = apple_mac_loop rest ret in
    let take = (do
      ma ← mac_from_sock_addr ifa_addr
      apple_mac_loop rest (if to_bool ma then insert ifa_name ma ret else ret)) in
    if is_link ifa_addr then take else skip

pub apple_mac_addresses : Sys (List (Text × Option LinkAddr)) → Result MacAddrMap
unfolding apple_mac_loop
apple_mac_addresses getifaddrs = do
  addrs ← or_throw (codes "getifaddrs") getifaddrs
  apple_mac_loop addrs []

-- The entries with a hardware address.
abbrev links : List (Text × Option LinkAddr) → List (Text × List ℕ)
links [] = []
links ((name, none) ∷ rest) = links rest
links ((name, some saddr) ∷ rest) =
    if saddr.sa_family == af_link then (name, saddr.lladdr) ∷ links rest else links rest

-- What SIOCGIFHWADDR gives for an address of some length: the six bytes of an Ethernet address, and
-- zeros for an interface with none, like the loopback, or with one of another length.
abbrev six_bytes : List ℕ → List ℕ
six_bytes bytes = if length bytes == 6 then bytes else 0 ∷ 0 ∷ 0 ∷ 0 ∷ 0 ∷ 0 ∷ []

-- The interface is there, and the system answers with the same address.
abbrev Answers : System → Text × List ℕ → Type 0
Answers os (name, bytes) = (os.ifflags name ≡ done tt) × (os.ifhwaddr name ≡ done (six_bytes bytes))
