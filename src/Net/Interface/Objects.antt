-- ===== src/Net/Interface/Objects.antt =====
-- Copying and moving the objects of the class `NetworkInterface` of Sources/interface.cpp. An object
-- is what its `_impl` points to, or none where that is a null pointer; what uses a null pointer has
-- no outcome.
mod Tests
use kssio.Prelude.{
  ℕ, Bool, true, false, not, Option, none, some, Text, Result, ok, check, postconditions,
  if◌then◌else◌, ◌>>=◌, ◌>>◌,
}
use kssio.Net.Address.{IpV4Address, MacAddress}
use kssio.Net.Interface.{NetworkInterface, empty_interface, has_name}

abbrev pub Object : Type 0
Object = Option NetworkInterface

-- `a == b`, which compares the two casts to `bool`.
same_truth : NetworkInterface → NetworkInterface → Bool
same_truth a b = if has_name a then has_name b else not (has_name b)

pub default_construct : Object
default_construct = some empty_interface

-- What the new object is.
pub copy_construct : Object → Option (Result Object)
unfolding same_truth
copy_construct none = none
copy_construct (some ni) = some (check postconditions (same_truth ni ni) >> ok (some ni))

-- What `*this` is then; `same` says whether the other object is this one.
pub copy_assign : Bool → Object → Object → Option (Result Object)
unfolding same_truth
copy_assign same none rhs = none
copy_assign same (some this) none = none
copy_assign same (some this) (some rhs) =
    let now = if same then this else rhs in
    some (check postconditions (same_truth rhs now) >> ok (some now))

-- The new object, and the one that was moved from.
pub move_construct : Object → Object × Object
move_construct ni = (ni, none)

-- `*this` and the other object, which is another one; an object that is moved to itself stays.
pub move_assign : Object → Object → Object × Object
move_assign this ni = (ni, none)

-- The accessors.
read_member : {A : Type 0} → (NetworkInterface → A) → Object → Option A
read_member member none = none
read_member member (some ni) = some (member ni)

pub name : Object → Option Text
unfolding read_member
name = read_member (λ ni. ni.name)

pub flags : Object → Option ℕ
unfolding read_member
flags = read_member (λ ni. ni.flags)

pub v4_address : Object → Option IpV4Address
unfolding read_member
v4_address = read_member (λ ni. ni.v4_address)

pub v4_netmask : Object → Option IpV4Address
unfolding read_member
v4_netmask = read_member (λ ni. ni.v4_netmask)

pub v4_broadcast : Object → Option IpV4Address
unfolding read_member
v4_broadcast = read_member (λ ni. ni.v4_broadcast)

pub hw_address : Object → Option MacAddress
unfolding read_member
hw_address = read_member (λ ni. ni.hw_address)
