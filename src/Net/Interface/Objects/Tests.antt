-- ===== src/Net/Interface/Objects/Tests.antt =====
-- Concrete objects.
use kssio.Prelude.{none, some, codes, ok, false, ◌≡◌, refl}
use kssio.Net.Interface.{empty_interface, has_name}
use kssio.Net.Interface.Objects.{
  Object, default_construct, copy_construct, copy_assign, move_construct, move_assign, name, flags,
  v4_address, v4_netmask, v4_broadcast, hw_address,
}

abbrev card : Object
card = some (record empty_interface {
  name = codes "eth0";
  flags = 0x41;
  v4_address = 0xC0A80001;
  hw_address = 0xa1b2;
})

copied : copy_construct card ≡ some (ok card)
unfolding copy_construct has_name
copied = refl

assigned : copy_assign false default_construct card ≡ some (ok card)
unfolding copy_assign default_construct has_name
assigned = refl

-- An object that has been moved from has no name that could be asked for, and cannot be assigned to.
moved_from : name (move_construct card).1 ≡ none
unfolding name move_construct
moved_from = refl

unassignable : copy_assign false (move_assign default_construct card).1 card ≡ none
unfolding copy_assign move_assign
unassignable = refl

members :
    (flags card ≡ some 0x41)
    × (v4_address card ≡ some 0xC0A80001)
    × (v4_netmask card ≡ some 0)
    × (v4_broadcast card ≡ some 0)
    × (hw_address card ≡ some 0xa1b2)
unfolding flags v4_address v4_netmask v4_broadcast hw_address
members = (refl, refl, refl, refl, refl)
