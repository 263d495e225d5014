-- ===== src/Net/Interface/Queries.antt =====
-- Every search is a search in the list of all interfaces.
use kssio.Prelude.{
  sym, ap, ◌∙◌, inr, append_assoc, >>=-assoc, refl, inl, Result-cases, arith, ◌>>=◌, Bool-cases,
  if◌then◌else◌, append-nil, map, ◌≡◌, ◌++◌, ◌&&◌,
}
use kssio.Net.Interface.{
  get_mac_addresses, codes, or_throw, MacAddrMap, from_os_impl, Result, text_eq, ok, false, Text,
  [], not, ◌∷◌, true, List, Bool, Ifaddrs, NetworkInterface, System, empty_interface, up, running,
  loopback, is_inet, for_each_loop, for_each_interface, find_interface, find_active_interface,
  find_mac_address, find_all_interface_names, find_all_interfaces,
}

-- The first of a list that passes a test, or the empty interface.
abbrev pub first : (NetworkInterface → Bool) → List NetworkInterface → NetworkInterface
first test [] = empty_interface
first test (ni ∷ rest) = if test ni then ni else first test rest

abbrev pub is_active : NetworkInterface → Bool
is_active ni = up ni && (running ni && not (loopback ni))

-- What the loop visits.
visited : (Ifaddrs → NetworkInterface) → List Ifaddrs → List NetworkInterface
visited make [] = []
visited make (cur ∷ rest) =
    if is_inet cur.ifa_addr then make cur ∷ visited make rest else visited make rest

module _ (make : Ifaddrs → NetworkInterface) where
  loop_first :
      (test : NetworkInterface → Bool) (l : List Ifaddrs)
      → for_each_loop make
          (λ ni ret. if test ni then (false, ni) else (true, ret))
          l
          empty_interface
        ≡ first test (visited make l)
  unfolding for_each_loop visited
  loop_first test [] = refl
  loop_first test (cur ∷ rest) = ground (arith, loop_first test rest)

  loop_collect :
      {B : Type 0} (f : NetworkInterface → B) (l : List Ifaddrs) (v : List B)
      → for_each_loop make (λ ni w. (true, w ++ f ni ∷ [])) l v ≡ v ++ map f (visited make l)
  unfolding for_each_loop visited
  loop_collect f [] v = rw append-nil
  loop_collect f (cur ∷ rest) v = elim (Bool-cases (is_inet cur.ifa_addr)) [
    | inl yes_inet ↦ rw (yes_inet, loop_collect f rest (v ++ f (make cur) ∷ []), append_assoc)
    | inr no_inet ↦ rw (no_inet, loop_collect f rest v)
  ]

  loop_visited :
      (l : List Ifaddrs) (v : List NetworkInterface)
      → for_each_loop make (λ ni w. (true, w ++ ni ∷ [])) l v ≡ v ++ visited make l
  unfolding for_each_loop visited
  loop_visited [] v = rw append-nil
  loop_visited (cur ∷ rest) v = elim (Bool-cases (is_inet cur.ifa_addr)) [
    | inl yes_inet ↦ rw (yes_inet, loop_visited rest (v ++ make cur ∷ []), append_assoc)
    | inr no_inet ↦ rw (no_inet, loop_visited rest v)
  ]

-- What the loop starts from.
reach : System → Result (List Ifaddrs × MacAddrMap)
reach os = do
  addrs ← or_throw (codes "getifaddrs") os.getifaddrs
  m ← get_mac_addresses os
  ok (addrs, m)

for_each-reach :
    (os : System) {S : Type 0} (cb : NetworkInterface → S → Bool × S) (s : S)
    → for_each_interface os cb s
      ≡ (reach os >>= λ r. ok (for_each_loop (λ cur. from_os_impl os cur r.1) cb r.0 s))
unfolding for_each_interface reach
for_each-reach os cb s = simp >>=-assoc

-- The four searches agree with the list of all interfaces, also when a system call fails: by name
-- and by activity they give the first that fits, or the empty interface if none does; the names
-- and the hardware address are read off the interfaces.
pub queries_agree :
    (os : System) (name : Text)
    → (find_interface os name
        ≡ find_all_interfaces os >>= λ l. ok (first (λ ni. text_eq ni.name name) l))
      × (find_active_interface os ≡ find_all_interfaces os >>= λ l. ok (first is_active l))
      × (find_all_interface_names os ≡ find_all_interfaces os >>= λ l. ok (map (λ ni. ni.name) l))
      × (find_mac_address os ≡ find_all_interfaces os >>= λ l. ok ((first is_active l).hw_address))
unfolding find_interface find_active_interface find_all_interfaces find_all_interface_names
    find_mac_address
queries_agree os name = elim (Result-cases (reach os)) [
  | inl ((addrs, m), e) ↦
      let make : Ifaddrs → NetworkInterface = λ cur. from_os_impl os cur m in
      let all = loop_visited make addrs [] in
      let found = λ (test : NetworkInterface → Bool).
        loop_first make test addrs ∙ ap (first test) (sym all) in
      simp (for_each-reach os, e)
        (
          ap ok (found (λ ni. text_eq ni.name name)),
          ap ok (found is_active),
          ap ok (loop_collect make (λ ni. ni.name) addrs [] ∙ ap (map (λ ni. ni.name)) (sym all)),
          ap (λ ni. ok ni.hw_address) (found is_active),
        )
  | inr (x, e) ↦ simp (for_each-reach os, e) (refl, refl, refl, refl)
]
