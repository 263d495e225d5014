-- ===== src/Net/Interface.antt =====
-- `NetworkInterface` and the functions that look for interfaces: Sources/interface.cpp, with the
-- Linux version of getMacAddresses.
pub mod Queries
pub mod Apple
pub mod Objects
mod Tests
use kssio.Prelude.{
  ℕ, Bool, true, false, not, ◌&&◌, Option, none, some, List, [], ◌∷◌, ◌++◌, bit_and, ◌==◌,
  if◌then◌else◌, is_empty, text_eq, Text, codes, Result, ok, Sys, or_throw, ◌>>=◌, ◌>>◌,
}
use kssio.Net.ByteOrder.{ntoh_32}
use kssio.Net.Pack.{pack}
use kssio.Net.Address.{to_bool, IpV4Address, MacAddress}

pub record SockAddr : Type 0 where
  pub sa_family : ℕ
  pub s_addr : ℕ

-- One entry of the list that `getifaddrs` makes.
pub record Ifaddrs : Type 0 where
  pub ifa_name : Text
  pub ifa_flags : ℕ
  pub ifa_addr : Option SockAddr
  pub ifa_netmask : Option SockAddr
  pub ifa_broadaddr : Option SockAddr

pub record NetworkInterface : Type 0 where
  pub name : Text
  pub flags : ℕ
  pub v4_address : IpV4Address
  pub v4_netmask : IpV4Address
  pub v4_broadcast : IpV4Address
  pub hw_address : MacAddress

-- The answers of the system: `getifaddrs`, `socket`, and the three `ioctl` calls, of which the
-- last reads six bytes. `big` is the byte order of the machine.
pub record System : Type 0 where
  pub big : Bool
  pub getifaddrs : Sys (List Ifaddrs)
  pub socket : Sys (Unit {0})
  pub ifconf : Sys (List Text)
  pub ifflags : Text → Sys (Unit {0})
  pub ifhwaddr : Text → Sys (List ℕ)

abbrev af_inet : ℕ
af_inet = 2

-- `NetworkInterface()`
abbrev pub empty_interface : NetworkInterface
empty_interface = record {
  name = [];
  flags = 0;
  v4_address = 0;
  v4_netmask = 0;
  v4_broadcast = 0;
  hw_address = 0;
}

-- `operator bool`
has_name : NetworkInterface → Bool
has_name ni = not (is_empty ni.name)

has_flag : ℕ → ℕ → Bool
has_flag mask flags = not (bit_and flags mask == 0)

pub up : NetworkInterface → Bool
unfolding has_flag
up ni = has_flag 0x1 ni.flags

broadcast : NetworkInterface → Bool
unfolding has_flag
broadcast ni = has_flag 0x2 ni.flags

pub loopback : NetworkInterface → Bool
unfolding has_flag
loopback ni = has_flag 0x8 ni.flags

pub running : NetworkInterface → Bool
unfolding has_flag
running ni = has_flag 0x40 ni.flags

unfoldable multicast : NetworkInterface → Bool
unfolding has_flag
multicast ni = has_flag 0x1000 ni.flags

ip_from_sock_addr : Bool → Option SockAddr → ℕ
ip_from_sock_addr big none = 0
ip_from_sock_addr big (some saddr) = ntoh_32 big saddr.s_addr

-- An `unordered_map` from names to hardware addresses.
abbrev pub MacAddrMap : Type 0
MacAddrMap = List (Text × MacAddress)

lookup : Text → MacAddrMap → Option MacAddress
lookup k [] = none
lookup k ((j, v) ∷ m) = if text_eq k j then some v else lookup k m

insert : Text → ℕ → MacAddrMap → MacAddrMap
insert k v [] = (k, v) ∷ []
insert k v ((j, w) ∷ m) = if text_eq k j then (k, v) ∷ m else (j, w) ∷ insert k v m

module _ (os : System) where
  mac_loop : List Text → MacAddrMap → Result MacAddrMap
  unfolding insert
  mac_loop [] ret = ok ret
  mac_loop (ifr_name ∷ rest) ret = do
    or_throw (codes "ioctl") (os.ifflags ifr_name)
    sa_data ← or_throw (codes "ioctl") (os.ifhwaddr ifr_name)
    let ma = pack 64 6 sa_data
    mac_loop rest (if to_bool ma then insert ifr_name ma ret else ret)

  pub get_mac_addresses : Result MacAddrMap
  unfolding mac_loop
  get_mac_addresses = do
    or_throw (codes "socket") os.socket
    names ← or_throw (codes "ioctl") os.ifconf
    mac_loop names []

  -- `NetworkInterface::_fromOsImpl`
  from_os_impl : Ifaddrs → MacAddrMap → NetworkInterface
  unfolding ip_from_sock_addr lookup broadcast
  from_os_impl rep addr_map =
      let ret = record empty_interface {
        name = rep.ifa_name;
        flags = rep.ifa_flags;
        v4_address = ip_from_sock_addr os.big rep.ifa_addr;
        v4_netmask = ip_from_sock_addr os.big rep.ifa_netmask;
      } in
      record ret {
        v4_broadcast = if broadcast ret then ip_from_sock_addr os.big rep.ifa_broadaddr else 0;
        hw_address = elim (lookup rep.ifa_name addr_map) [ some ma ↦ ma | none ↦ 0 ];
      }

is_inet : Option SockAddr → Bool
is_inet none = false
is_inet (some saddr) = saddr.sa_family == af_inet

-- The loop of forEachInterface. What the callback changes is the state `s`; it answers whether to
-- go on.
for_each_loop :
    {S : Type 0}
    → (Ifaddrs → NetworkInterface)
    → (NetworkInterface → S → Bool × S)
    → List Ifaddrs
    → S
    → S
unfolding is_inet
for_each_loop make cb [] s = s
for_each_loop make cb (cur ∷ rest) s =
    let called = cb (make cur) s in
    let go_on = for_each_loop make cb rest called.1 in
    let skip = for_each_loop make cb rest s in
    if is_inet cur.ifa_addr then (if called.0 then go_on else called.1) else skip

module _ (os : System) where
  for_each_interface : {S : Type 0} → (NetworkInterface → S → Bool × S) → S → Result S
  for_each_interface cb s = do
    addrs ← or_throw (codes "getifaddrs") os.getifaddrs
    mac_address_map ← get_mac_addresses os
    ok (for_each_loop (λ cur. from_os_impl os cur mac_address_map) cb addrs s)

  pub find_interface : Text → Result NetworkInterface
  find_interface name =
      for_each_interface (λ ni ret. if text_eq ni.name name then (false, ni) else (true, ret))
        empty_interface

  pub find_active_interface : Result NetworkInterface
  find_active_interface =
      for_each_interface
        (λ ni ret. if up ni && (running ni && not (loopback ni)) then (false, ni) else (true, ret))
        empty_interface

  pub find_mac_address : Result ℕ
  find_mac_address = do ni ← find_active_interface; ok ni.hw_address

  pub find_all_interface_names : Result (List Text)
  find_all_interface_names = for_each_interface (λ ni v. (true, v ++ ni.name ∷ [])) []

  pub find_all_interfaces : Result (List NetworkInterface)
  find_all_interfaces = for_each_interface (λ ni v. (true, v ++ ni ∷ [])) []
