-- ===== src/Poller/Owners/Values.antt =====
-- The pollers of a program as values that are moved.
use mathlib.Core.Path.{subst}
use kssio.Prelude.{
  ℕ, true, false, Option, none, some, List, [], ◌++◌, is_empty, ◌∷◌, ◌==◌, if◌then◌else◌, ◌≡◌, refl,
  arith, Option-cases, Bool-cases, inl, inr, ==_iff, ap, ◌∙◌,
}
use kssio.Poller.Resources.{PolledResource, Impl, Op, add, remove, remove_all, apply}
use kssio.Poller.Owners.{
  Owned, Store, Ending, act_all, with_impl, claim, promised, move_assign_to, change_impl, done, Act,
  construct, destroy, move_construct, move_assign, set_delegate, change, fresh, act, act_all, set,
}

-- The value of each poller that has one.
abbrev pub View : Type 0
View = ℕ → Option Impl

-- What a user of the class may do: use pollers that have a value, and move one to another. A poller
-- that has been moved from can only be destroyed.
abbrev moved : ℕ → ℕ → View → Option Impl → Option View
moved this p v none = none
moved this p v (some impl) = if this == p then none else some (set this (some impl) (set p none v))

abbrev changed : ℕ → (Impl → Impl) → View → Option Impl → Option View
changed this f v none = none
changed this f v (some impl) = some (set this (some (f impl)) v)

abbrev intended : Act → View → Option View
intended (construct this) v = some (set this (some fresh) v)
intended (destroy this) v = some (set this none v)
intended (move_construct this p) v = moved this p v (v p)
intended (move_assign this p) v = elim (v this) [ none ↦ none | some impl ↦ moved this p v (v p) ]
intended (set_delegate this delegate) v =
    changed this (λ impl. record impl { has_delegate = delegate }) v (v this)
intended (change this op) v = changed this (apply op) v (v this)

abbrev pub intended_all : List Act → View → Option View
intended_all [] v = some v
intended_all (x ∷ acts) v = elim (intended x v) [ none ↦ none | some v' ↦ intended_all acts v' ]

-- Each poller owns its own value.
abbrev owner : ℕ → Option Impl → Option Owned
owner this none = none
owner this (some impl) = some (record { parent = this; impl = impl })

abbrev pub IsOwnedAs : View → Store → Type 0
IsOwnedAs v s = (a : ℕ) → s a ≡ owner a (v a)

set-IsOwnedAs :
    (v : View) (s : Store) (a : ℕ) (o : Option Impl)
    → IsOwnedAs v s
    → IsOwnedAs (set a o v) (set a (owner a o) s)
set-IsOwnedAs v s a o owned b = elim (Bool-cases (a == b)) [
  | inl e ↦ let same : a ≡ b = ground (arith, ==_iff a b) in rw e (ap (λ c. owner c o) same)
  | inr e ↦ rw e (owned b)
]

with_impl-owner :
    (this : ℕ) (s : Store) (impl : Impl) (f : Owned → Ending)
    → s this ≡ owner this (some impl)
    → with_impl this s f ≡ f (record { parent = this; impl = impl })
unfolding with_impl
with_impl-owner this s impl f e = ground (arith, e)

returns :
    (r : Ending) (s' : Store) (w v' : View)
    → r ≡ done s'
    → IsOwnedAs w s'
    → some w ≡ some v'
    → (s'' : Store) × (r ≡ done s'') × IsOwnedAs v' s''
returns r s' w v' e owned i =
    (s', e, subst (λ u. IsOwnedAs u s') (ap (λ o. elim o [ none ↦ w | some u ↦ u ]) i) owned)

-- A poller is not moved to itself.
moved-other :
    (this p : ℕ) (v v' : View) (o : Option Impl) → moved this p v o ≡ some v' → this == p ≡ false
moved-other this p v v' none e = cc
moved-other this p v v' (some impl) e = elim (Bool-cases (this == p)) [
  | inl same ↦ let refused : ◌≡◌ {A = Option View} none (some v') = rw same at e in cc
  | inr other ↦ other
]

claim-moved :
    (this p : ℕ) (v v' : View) (s : Store) (o : Option Impl)
    → IsOwnedAs v s
    → s p ≡ owner p o
    → moved this p v o ≡ some v'
    → (s' : Store) × (claim this (s p) (set p none s) ≡ done s') × IsOwnedAs v' s'
unfolding claim
claim-moved this p v v' s none owned i e = cc
claim-moved this p v v' s (some impl) owned i e =
    let other = moved-other this p v v' (some impl) e in
    let w = set this (some impl) (set p none v) in
    let s' = set this (owner this (some impl)) (set p none s) in
    returns (claim this (s p) (set p none s)) s' w v' (rw i refl)
      (set-IsOwnedAs (set p none v) (set p none s) this (some impl)
        (set-IsOwnedAs v s p none owned))
      (rw other at e)

assign-moved :
    (this p : ℕ) (v v' : View) (s : Store) (o : Option Impl)
    → IsOwnedAs v s
    → s this ≡ owner this o
    → elim o [ none ↦ none | some impl ↦ moved this p v (v p) ] ≡ some v'
    → (s' : Store) × (move_assign_to this p s ≡ done s') × IsOwnedAs v' s'
unfolding move_assign_to
assign-moved this p v v' s none owned i e = cc
assign-moved this p v v' s (some impl) owned i e =
    let other = moved-other this p v v' (v p) e in
    let (s', r, owned') = claim-moved this p v v' s (v p) owned (owned p) e in
    (s', with_impl-owner this s impl _ i ∙ rw other r, owned')

with_impl-changed :
    (this : ℕ) (v v' : View) (s : Store) (o : Option Impl) (f : Owned → Ending) (g : Impl → Impl)
    → IsOwnedAs v s
    → s this ≡ owner this o
    → ((impl : Impl)
        → f (record { parent = this; impl = impl })
          ≡ done (set this (owner this (some (g impl))) s))
    → changed this g v o ≡ some v'
    → (s' : Store) × (with_impl this s f ≡ done s') × IsOwnedAs v' s'
with_impl-changed this v v' s none f g owned i d e = cc
with_impl-changed this v v' s (some impl) f g owned i d e =
    returns (with_impl this s f) (set this (owner this (some (g impl))) s)
      (set this (some (g impl)) v) v' (with_impl-owner this s impl f i ∙ d impl)
      (set-IsOwnedAs v s this (some (g impl)) owned) e

is_empty-snoc : (xs : List PolledResource) (x : PolledResource) → is_empty (xs ++ x ∷ []) ≡ false
is_empty-snoc [] x = refl
is_empty-snoc (y ∷ xs) x = refl

-- The methods keep their promises.
promised-apply : (op : Op) (impl : Impl) → promised op (apply op impl) ≡ true
unfolding promised apply
promised-apply (add resource) impl = rw (is_empty-snoc impl.resources resource) refl
promised-apply (remove resource_name) impl = refl
promised-apply remove_all impl = refl

act-IsOwnedAs :
    (x : Act) (v v' : View) (s : Store)
    → IsOwnedAs v s
    → intended x v ≡ some v'
    → (s' : Store) × (act x s ≡ done s') × IsOwnedAs v' s'
unfolding act change_impl
act-IsOwnedAs (construct this) v v' s owned e =
    returns _ _ (set this (some fresh) v) v' refl (set-IsOwnedAs v s this (some fresh) owned) e
act-IsOwnedAs (destroy this) v v' s owned e =
    returns _ _ (set this none v) v' refl (set-IsOwnedAs v s this none owned) e
act-IsOwnedAs (move_construct this p) v v' s owned e =
    claim-moved this p v v' s (v p) owned (owned p) e
act-IsOwnedAs (move_assign this p) v v' s owned e =
    assign-moved this p v v' s (v this) owned (owned this) e
act-IsOwnedAs (set_delegate this delegate) v v' s owned e =
    with_impl-changed this v v' s (v this) _ (λ impl. record impl { has_delegate = delegate }) owned
      (owned this) (λ impl. refl) e
act-IsOwnedAs (change this op) v v' s owned e =
    with_impl-changed this v v' s (v this) _ (apply op) owned (owned this)
      (λ impl. rw (promised-apply op impl) refl) e

-- A program that moves no poller to itself, and does nothing to a poller that has been moved from
-- but destroy it, uses no null pointer and fails no contract; and each poller then owns just the
-- delegate, the resources and the flag that it has as a value, and is itself their parent.
pub act_all-IsOwnedAs :
    (acts : List Act) (v v' : View) (s : Store)
    → IsOwnedAs v s
    → intended_all acts v ≡ some v'
    → (s' : Store) × (act_all acts s ≡ done s') × IsOwnedAs v' s'
unfolding act_all
act_all-IsOwnedAs [] v v' s owned e = returns (done s) s v v' refl owned e
act_all-IsOwnedAs (x ∷ acts) v v' s owned e = elim (Option-cases (intended x v)) [
  | inl n ↦ let refused : ◌≡◌ {A = Option View} none (some v') = rw (intended_all, n) at e in cc
  | inr (v1, i) ↦
      let (s1, r, owned1) = act-IsOwnedAs x v v1 s owned i in
      rw (act_all, r) (act_all-IsOwnedAs acts v1 v' s1 owned1 (rw (intended_all, i) at e))
]
