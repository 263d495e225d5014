-- ===== src/Net/Interface/Tests.antt =====
-- Concrete searches, on a machine with a loopback interface and one that is active.
use kssio.Prelude.{
  List, Option, if◌then◌else◌, ◌≡◌, refl, false, some, none, ◌∷◌, [], map, ok, thrown, done, fails,
  codes, text_eq, ◌>>=◌, system_error, Text, ℕ,
}
use kssio.Net.Interface.{
  get_mac_addresses, System, Ifaddrs, SockAddr, NetworkInterface, find_interface,
  find_active_interface, find_all_interfaces, find_all_interface_names, find_mac_address,
}
use kssio.Net.Interface.Apple.{LinkAddr}
use kssio.Net.Interface.Queries.{queries_agree, first, is_active}

abbrev address : ℕ → ℕ → SockAddr
address family bits = record { sa_family = family; s_addr = bits }

abbrev entry : Text → ℕ → SockAddr → Ifaddrs
entry name flags saddr = record {
  ifa_name = name;
  ifa_flags = flags;
  ifa_addr = some saddr;
  ifa_netmask = none;
  ifa_broadaddr = none;
}

abbrev os : System
os = record {
  big = false;
  getifaddrs = done (
      entry (codes "lo") 0x49 (address 17 0)
      ∷ entry (codes "lo") 0x49 (address 2 0x0100007F)
      ∷ entry (codes "eth0") 0x41 (address 2 0x0100A8C0)
      ∷ []);
  socket = done tt;
  ifconf = done (codes "lo" ∷ codes "eth0" ∷ []);
  ifflags = λ name. done tt;
  ifhwaddr = λ name. done (
      if text_eq name (codes "lo")
      then 0 ∷ 0 ∷ 0 ∷ 0 ∷ 0 ∷ 0 ∷ []
      else 0 ∷ 0xa1 ∷ 0xb2 ∷ 3 ∷ 4 ∷ 0xff ∷ []);
}

names_found : find_all_interface_names os ≡ ok (codes "lo" ∷ codes "eth0" ∷ [])
unfolding find_all_interface_names kssio.Net.Interface.for_each_interface
    kssio.Net.Interface.get_mac_addresses kssio.Net.Interface.for_each_loop
    kssio.Net.Interface.from_os_impl
names_found = refl

mac_found : find_mac_address os ≡ ok 0x00a1b20304ff
unfolding find_mac_address find_active_interface kssio.Net.Interface.for_each_interface
    kssio.Net.Interface.get_mac_addresses kssio.Net.Interface.for_each_loop kssio.Net.Interface.up
    kssio.Net.Interface.from_os_impl kssio.Net.Interface.running kssio.Net.Interface.loopback
    kssio.Net.Address.to_bool kssio.Net.Pack.pack
mac_found = refl

no_sockets :
    find_all_interfaces (record os { socket = fails 13 })
    ≡ thrown (system_error 13 (codes "socket"))
unfolding find_all_interfaces kssio.Net.Interface.for_each_interface
    kssio.Net.Interface.get_mac_addresses
no_sockets = refl

queries_agree_example :
    (find_interface os (codes "eth0")
      ≡ find_all_interfaces os >>= λ l. ok (first (λ ni. text_eq ni.name (codes "eth0")) l))
    × (find_active_interface os ≡ find_all_interfaces os >>= λ l. ok (first is_active l))
    × (find_all_interface_names os ≡ find_all_interfaces os >>= λ l. ok (map (λ ni. ni.name) l))
    × (find_mac_address os ≡ find_all_interfaces os >>= λ l. ok ((first is_active l).hw_address))
queries_agree_example = queries_agree os (codes "eth0")

abbrev entries : List (Text × Option LinkAddr)
entries =
    (codes "lo", some (record { sa_family = 2; lladdr = [] }))
    ∷ (codes "tun0", none)
    ∷ (codes "lo", some (record { sa_family = 18; lladdr = [] }))
    ∷ (codes "eth0", some (record { sa_family = 18; lladdr = 0 ∷ 0xa1 ∷ 0xb2 ∷ 3 ∷ 4 ∷ 0xff ∷ [] }))
    ∷ []
