-- ===== src/Poller/Owners.antt =====
-- Which poller owns which implementation: construction, moving, and the methods of
-- Sources/poller.cpp up to `run`, with the pollers of a program as a store from addresses to what
-- their `_impl` points to.
pub mod Values
mod Tests
use kssio.Prelude.{
  ℕ, Bool, true, false, not, ◌&&◌, Option, none, some, List, [], ◌∷◌, ◌==◌, if◌then◌else◌, is_empty,
  Contract, preconditions, postconditions, ◌≡◌, refl, arith,
}
use kssio.Poller.Resources.{Impl, Op, add, remove, remove_all, apply}

-- The member `parent`, and the others.
pub record Owned : Type 0 where
  pub parent : ℕ
  pub impl : Impl

-- What `_impl` of the poller at an address points to; none is a null pointer.
abbrev pub Store : Type 0
Store = ℕ → Option Owned

abbrev pub set : {A : Type 0} → ℕ → A → (ℕ → A) → ℕ → A
set a x f b = if a == b then x else f b

-- How a call ends. A contract that fails in a function that is `noexcept` ends the program, as does,
-- at best, the use of a null pointer.
pub data Ending : Type 0 where
  done : Store → Ending
  terminated : Contract → Ending
  null_used : Ending

-- The calls: the poller's own address comes first.
pub data Act : Type 0 where
  construct destroy : ℕ → Act
  move_construct move_assign : ℕ → ℕ → Act
  set_delegate : ℕ → Bool → Act
  change : ℕ → Op → Act

abbrev pub fresh : Impl
fresh = record { has_delegate = false; resources = []; resources_have_changed = false }

-- `_impl->parent == this`, the precondition of the methods.
with_impl : ℕ → Store → (Owned → Ending) → Ending
with_impl this s f = elim (s this) [
  | none ↦ null_used
  | some o ↦ if o.parent == this then f o else terminated preconditions
]

-- `_impl->parent = this`
claim : ℕ → Option Owned → Store → Ending
claim this none s = null_used
claim this (some o) s = done (set this (some (record o { parent = this })) s)

-- What the methods promise of the resources and the flag.
promised : Op → Impl → Bool
promised (add resource) impl = not (is_empty impl.resources) && impl.resources_have_changed
promised (remove resource_name) impl = true
promised remove_all impl = is_empty impl.resources && impl.resources_have_changed

move_assign_to : ℕ → ℕ → Store → Ending
unfolding with_impl claim
move_assign_to this p s =
    with_impl this s
      λ o. if this == p then terminated postconditions else claim this (s p) (set p none s)

change_impl : ℕ → Op → Store → Ending
unfolding with_impl promised
change_impl this op s = with_impl this s λ o.
    let impl = apply op o.impl in
    if promised op impl
    then done (set this (some (record o { impl = impl })) s)
    else terminated postconditions

pub act : Act → Store → Ending
unfolding move_assign_to change_impl with_impl claim
act (construct this) s = done (set this (some (record { parent = this; impl = fresh })) s)
act (destroy this) s = done (set this none s)
act (move_construct this p) s = claim this (s p) (set p none s)
act (move_assign this p) s = move_assign_to this p s
act (set_delegate this delegate) s =
    with_impl this s λ o.
      done (set this (some (record o { impl = record (o.impl) { has_delegate = delegate } })) s)
act (change this op) s = change_impl this op s

pub act_all : List Act → Store → Ending
unfolding act
act_all [] s = done s
act_all (x ∷ acts) s = elim (act x s) [
  | done s' ↦ act_all acts s'
  | terminated k ↦ terminated k
  | null_used ↦ null_used
]
