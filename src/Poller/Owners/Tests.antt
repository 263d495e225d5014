-- ===== src/Poller/Owners/Tests.antt =====
-- Concrete pollers that are moved.
use kssio.Prelude.{none, some, true, [], ◌∷◌, refl, ◌≡◌}
use kssio.Poller.Owners.{
  postconditions, terminated, set, done, List, Store, Act, act, act_all, construct, move_construct,
  move_assign, destroy, set_delegate, change, fresh,
}
use kssio.Poller.Owners.Values.{View, IsOwnedAs, act_all-IsOwnedAs, intended_all}
use kssio.Poller.Resources.{apply, remove_all}

abbrev no_pollers : Store
no_pollers a = none

abbrev no_values : View
no_values a = none

-- The poller at 1 gets a delegate and goes to 2, and from there to 3.
abbrev acts : List Act
acts =
    construct 1
    ∷ set_delegate 1 true
    ∷ move_construct 2 1
    ∷ destroy 1
    ∷ construct 3
    ∷ move_assign 3 2
    ∷ change 3 remove_all
    ∷ []

abbrev values : View
values = elim (intended_all acts no_values) [ none ↦ no_values | some v ↦ v ]

last_value :
    values 3 ≡ some (record { has_delegate = true; resources = []; resources_have_changed = true })
unfolding apply
last_value = refl

moved_value : values 2 ≡ none
moved_value = refl

act_all-IsOwnedAs_example : (s : Store) × (act_all acts no_pollers ≡ done s) × IsOwnedAs values s
act_all-IsOwnedAs_example = act_all-IsOwnedAs acts no_values values no_pollers (λ a. refl) refl

abbrev one : Store
one = set 1 (some (record { parent = 1; impl = fresh })) no_pollers

-- Moving a poller to itself ends the program: the move is guarded against it, but the check that
-- follows asks that the other poller has given up its implementation.
move_assign_itself : act (move_assign 1 1) one ≡ terminated postconditions
unfolding act kssio.Poller.Owners.move_assign_to kssio.Poller.Owners.with_impl
move_assign_itself = refl
