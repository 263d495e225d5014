-- ===== src/Poller/Refresh.antt =====
-- The copies of the resources that a run keeps are up to date whenever it polls, if the first
-- round finds them changed; a run that finds them unchanged does not poll.
use kssio.Prelude.{inr, inl, ◌⊎◌, ◌++◌, ◌≤◌, sym, ◌∙◌, refl, arith, if◌then◌else◌, ap, ◌≡◌}
use kssio.Poller.{
  true, length, Text, is_empty, [], ◌∷◌, map, false, List, Bool, Round, End, Seen, LoopState,
  Callback, running, stopped, to_pollfd, clear_revents, refresh, run_loop, run, finish, fire,
  has_started, will_stop,
}
use kssio.Poller.Direct.{
  held, apply_all-held, watch_once, poll_once-watch_once, continued, go_on-continued, whole,
  finish-whole,
}
use kssio.Poller.Resources.{erase_named, apply, Impl, Op, PolledResource, apply_all}

-- The flag as it stands behind the update of the copies.
abbrev settled : Impl → Impl
settled impl = record impl { resources_have_changed = false }

module _ (throws : Callback → Bool) where
  -- A poller with no copies and no flag: each round looks at the resources that are held.
  pub direct_loop : List Round → List PolledResource → End × List Seen
  direct_loop [] rs = (running, [])
  direct_loop (r ∷ rounds) rs =
      let now = held r.ops rs in
      let rest = direct_loop rounds now in
      if r.should_stop
      then (stopped, [])
      else if is_empty now
      then (stopped, [])
      else continued throws (watch_once throws r now) rest

clear_revents-map : (rs : List PolledResource) → clear_revents (map to_pollfd rs) ≡ map to_pollfd rs
unfolding clear_revents
clear_revents-map [] = refl
clear_revents-map (r ∷ rs) = ap (λ t. to_pollfd r ∷ t) (clear_revents-map rs)

-- The copies are those of the resources, unless the flag says that they have to be made again.
abbrev IsSynced : LoopState → Type 0
IsSynced s =
    s.impl.resources_have_changed ≡ false
    → (s.fds ≡ map to_pollfd s.impl.resources) × (s.current_resources ≡ s.impl.resources)

length-erase_named : (n : Text) (rs : List PolledResource) → length (erase_named n rs) ≤ length rs
unfolding erase_named
length-erase_named n [] = omega arith
length-erase_named n (r ∷ rs) = ground (arith, length-erase_named n rs)

erase_named_same :
    (n : Text) (rs : List PolledResource)
    → length (erase_named n rs) ≡ length rs
    → erase_named n rs ≡ rs
unfolding erase_named
erase_named_same n [] h = refl
erase_named_same n (r ∷ rs) h = ground (arith, length-erase_named n rs, erase_named_same n rs)

-- A call that leaves the flag down has changed nothing.
apply-unchanged :
    (op : Op) (impl : Impl)
    → (apply op impl).resources_have_changed ≡ false
    → (impl.resources_have_changed ≡ false) × ((apply op impl).resources ≡ impl.resources)
unfolding apply
apply-unchanged (Op.add r) impl h = cc
apply-unchanged (Op.remove n) impl h = ground (arith, erase_named_same n impl.resources)
apply-unchanged Op.remove_all impl h = cc

apply_all-unchanged :
    (ops : List Op) (impl : Impl)
    → (apply_all ops impl).resources_have_changed ≡ false
    → (impl.resources_have_changed ≡ false) × ((apply_all ops impl).resources ≡ impl.resources)
unfolding apply_all
apply_all-unchanged [] impl h = (h, refl)
apply_all-unchanged (op ∷ ops) impl h =
    let (flag, same) = apply_all-unchanged ops (apply op impl) h in
    let (flag', same') = apply-unchanged op impl flag in (flag', same ∙ same')

apply_all-IsSynced :
    (ops : List Op) (s : LoopState)
    → IsSynced s
    → IsSynced (record s { impl = apply_all ops s.impl })
apply_all-IsSynced ops s h flag =
    let (flag', same) = apply_all-unchanged ops s.impl flag in
    let (f, c) = h flag' in (f ∙ ap (map to_pollfd) (sym same), c ∙ sym same)

refresh_lem :
    (s : LoopState)
    → IsSynced s
    → refresh s ≡ record {
      impl = settled s.impl;
      fds = map to_pollfd s.impl.resources;
      current_resources = s.impl.resources;
    }
unfolding refresh
refresh_lem s h = ground (arith, h)

is_empty-map : (rs : List PolledResource) → is_empty (map to_pollfd rs) ≡ is_empty rs
is_empty-map [] = refl
is_empty-map (r ∷ rs) = refl

run_loop-direct :
    (throws : Callback → Bool) (rounds : List Round) (s : LoopState)
    → IsSynced s
    → run_loop throws rounds s ≡ direct_loop throws rounds s.impl.resources
unfolding run_loop direct_loop
run_loop-direct throws [] s h = refl
run_loop-direct throws (r ∷ rounds) s h =
    let impl1 = apply_all r.ops s.impl in
    let next : LoopState = record {
      impl = settled impl1;
      fds = map to_pollfd impl1.resources;
      current_resources = impl1.resources;
    } in
    rw (
      ← apply_all-held r.ops s.impl,
      refresh_lem (record s { impl = impl1 }) (apply_all-IsSynced r.ops s h),
      clear_revents-map impl1.resources,
      is_empty-map impl1.resources,
      run_loop-direct throws rounds next (λ flag. (refl, refl)),
      poll_once-watch_once throws r impl1.resources,
      go_on-continued throws,
    )

IsSynced-start :
    (impl : Impl)
    → (impl.resources_have_changed ≡ true) ⊎ (impl.resources ≡ [])
    → IsSynced (record { impl = impl; fds = []; current_resources = [] })
IsSynced-start impl (inl changed) flag = cc
IsSynced-start impl (inr none_left) flag = (ap (map to_pollfd) (sym none_left), sym none_left)

-- A run whose poller has changed since the last run, or has no resource, is the run of a poller
-- with no copies: each call of `poll` watches just the descriptors of the resources that have been
-- added and not removed until then, each for its own events; of what is reported for a resource, the delegate
-- hears of errors, hangups, reading and writing, in that order and with that resource, and what it
-- throws is logged; EAGAIN goes on, EINTR stops the run and another error is thrown. The delegate
-- hears of the start, and of the end unless an exception ends the run.
pub run-direct :
    (throws : Callback → Bool) (rounds : List Round) (impl : Impl)
    → impl.has_delegate ≡ true
    → (impl.resources_have_changed ≡ true) ⊎ (impl.resources ≡ [])
    → run throws rounds impl ≡ whole throws (direct_loop throws rounds impl.resources)
unfolding run
run-direct throws rounds impl d h =
    let start : LoopState = record { impl = impl; fds = []; current_resources = [] } in
    rw (run_loop-direct throws rounds start (IsSynced-start impl h)) (simp d)
    ∙ finish-whole throws (direct_loop throws rounds impl.resources)

-- A run that finds the flag down, as every second run does with no calls between, stops at once
-- without polling, whatever resources the poller holds.
pub run_unchanged :
    (throws : Callback → Bool) (r : Round) (rounds : List Round) (impl : Impl)
    → impl.has_delegate ≡ true
    → impl.resources_have_changed ≡ false
    → r.ops ≡ []
    → run throws (r ∷ rounds) impl ≡ (stopped, fire throws has_started ++ fire throws will_stop)
unfolding run run_loop refresh apply_all finish
run_unchanged throws r rounds impl d c o = rw (d, o, c) (ground arith)
