-- ===== src/Poller/Resources.antt =====
-- The resources of a poller, and the calls of Sources/poller.cpp that change them.
use kssio.Prelude.{ℕ, Bool, true, List, [], ◌∷◌, ◌++◌, ◌==◌, if◌then◌else◌, length, text_eq, Text}
use kssio.Prelude.Int.{ℤ}

-- `PolledResource::Event`
pub data Event : Type 0 where
  read write any : Event

pub record PolledResource : Type 0 where
  pub name : Text
  pub filedes : ℤ
  pub event : Event
  pub payload : ℕ

-- `Poller::Impl`, and whether a delegate is set.
pub record Impl : Type 0 where
  pub has_delegate : Bool
  pub resources : List PolledResource
  pub resources_have_changed : Bool

-- The calls that change the poller.
pub data Op : Type 0 where
  add : PolledResource → Op
  remove : Text → Op
  remove_all : Op

-- `eraseIf`: the elements whose name is another one.
unfoldable pub erase_named : Text → List PolledResource → List PolledResource
erase_named resource_name [] = []
erase_named resource_name (r ∷ rs) =
    if text_eq r.name resource_name
    then erase_named resource_name rs
    else r ∷ erase_named resource_name rs

unfoldable pub apply : Op → Impl → Impl
unfolding erase_named
apply (add resource) impl = record impl {
  resources = impl.resources ++ resource ∷ [];
  resources_have_changed = true;
}
apply (remove resource_name) impl =
    let kept = erase_named resource_name impl.resources in
    record impl {
      resources = kept;
      resources_have_changed =
          if length kept == length impl.resources then impl.resources_have_changed else true;
    }
apply remove_all impl = record impl { resources = []; resources_have_changed = true }

unfoldable pub apply_all : List Op → Impl → Impl
apply_all [] impl = impl
apply_all (op ∷ ops) impl = apply_all ops (apply op impl)
