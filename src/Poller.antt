-- ===== src/Poller.antt =====
-- Sources/poller.cpp: the poller over the system call `poll`. Calls from other threads and from
-- the callbacks change only the resources and the flag `resourcesHaveChanged`, under the lock; the
-- loop looks at them once in a round. So a run is driven by a list of rounds: what was called since
-- the last round, the delegate's answers, and what `poll` reports. The numbers are those of Linux.
pub mod Resources
pub mod Timeout
pub mod Direct
pub mod Refresh
pub mod Owners
mod Tests
use kssio.Prelude.{
  ℕ, zero, suc, ◌+◌, ◌-◌, ◌^◌, ◌%◌, Bool, true, false, not, Option, none, some, List, [], ◌∷◌, ◌++◌,
  map, bit_and, ltb, ◌==◌, if◌then◌else◌, is_empty, length, text_eq, Text, codes, Exception, Result,
  ok, thrown, system_error, runtime_error,
}
use kssio.Poller.Resources.{Event, read, write, any, PolledResource, Impl, Op, apply_all}
use kssio.Poller.Timeout.{timeout_from_interval}
use kssio.Prelude.Int.{ℤ, pos, negsuc, eqb_ℤ, leb_ℤ}

-- `struct pollfd`
pub record Pollfd : Type 0 where
  pub fd : ℤ
  pub events : ℕ
  pub revents : ℕ

abbrev pollin : ℕ
pollin = 1

abbrev pollout : ℕ
pollout = 4

abbrev pollerr : ℕ
pollerr = 8

abbrev pollhup : ℕ
pollhup = 16

abbrev eintr : ℕ
eintr = 4

abbrev eagain : ℕ
eagain = 11

abbrev events_from_resource_event : Event → ℕ
events_from_resource_event read = pollin
events_from_resource_event write = pollout
events_from_resource_event any = 5

-- The delegate's methods that react to something.
pub data Callback : Type 0 where
  has_started will_stop : Callback
  error_has_occurred has_disconnected read_is_ready write_is_ready : PolledResource → Callback

-- What can be seen of a run: callbacks, messages to the log, and calls of `poll`.
pub data Seen : Type 0 where
  called : Callback → Seen
  logged : Seen
  polled : List Pollfd → ℤ → Seen

-- What `poll` reports: an error, a timeout, or the returned events of each descriptor.
pub data Outcome : Type 0 where
  failure : ℕ → Outcome
  timed_out : Outcome
  ready : List ℕ → Outcome

pub record Round : Type 0 where
  pub ops : List Op
  pub should_stop : Bool
  pub maximum_wait_interval : ℤ
  pub outcome : Outcome

-- How a loop ends; `running` means that the rounds are used up.
pub data End : Type 0 where
  running stopped : End
  threw : Exception → End

abbrev pub to_pollfd : PolledResource → Pollfd
to_pollfd r = record { fd = r.filedes; events = events_from_resource_event r.event; revents = 0 }

clear_revents : List Pollfd → List Pollfd
clear_revents [] = []
clear_revents (p ∷ fds) = record p { revents = 0 } ∷ clear_revents fds

-- `poll` writes the returned events into the array.
store_revents : List Pollfd → List ℕ → List Pollfd
store_revents [] res = []
store_revents (p ∷ fds) [] = p ∷ fds
store_revents (p ∷ fds) (e ∷ res) = record p { revents = e } ∷ store_revents fds res

-- The variables of the loop.
pub record LoopState : Type 0 where
  pub impl : Impl
  pub fds : List Pollfd
  pub current_resources : List PolledResource

-- The update of the variables where the resources have changed.
pub refresh : LoopState → LoopState
refresh s =
    if s.impl.resources_have_changed
    then record {
      impl = record (s.impl) { resources_have_changed = false };
      fds = map to_pollfd s.impl.resources;
      current_resources = s.impl.resources;
    }
    else s

abbrev too_many : Exception
too_many = runtime_error (
    codes
      "Too many resources have been added. This could represent an attempt to cause an overflow or underflow.")

-- `throws` says which callbacks end with an exception. It is caught and logged.
module _ (throws : Callback → Bool) where
  pub fire : Callback → List Seen
  fire cb = if throws cb then called cb ∷ logged ∷ [] else called cb ∷ []

  fire_if : ℕ → ℕ → Callback → List Seen
  unfolding fire
  fire_if revents mask cb = if bit_and revents mask == 0 then [] else fire cb

  trigger_callbacks_for_resource : Pollfd → PolledResource → List Seen
  unfolding fire_if
  trigger_callbacks_for_resource fd resource =
      fire_if fd.revents pollerr (error_has_occurred resource)
      ++ (fire_if fd.revents pollhup (has_disconnected resource)
          ++ (fire_if fd.revents pollin (read_is_ready resource)
              ++ fire_if fd.revents pollout (write_is_ready resource)))

  -- The loop over both arrays.
  trigger_callbacks : List Pollfd → List PolledResource → List Seen
  unfolding trigger_callbacks_for_resource
  trigger_callbacks [] current = []
  trigger_callbacks (p ∷ fds) [] = []
  trigger_callbacks (p ∷ fds) (r ∷ current) =
      trigger_callbacks_for_resource p r ++ trigger_callbacks fds current

  -- Whether to go on, and what was seen.
  handle_poll_result : Outcome → List Pollfd → List PolledResource → Result Bool × List Seen
  unfolding trigger_callbacks store_revents
  handle_poll_result (failure errno) fds current =
      if errno == eagain
      then (ok true, logged ∷ [])
      else if errno == eintr
      then (ok false, logged ∷ [])
      else (thrown (system_error errno (codes "poll")), [])
  handle_poll_result timed_out fds current = (ok true, [])
  handle_poll_result (ready res) fds current =
      (ok true, trigger_callbacks (store_revents fds res) current)

  -- The end of a pass: the check of the size, the call of `poll`, and its results.
  pub poll_once : Round → List Pollfd → List PolledResource → Result Bool × List Seen
  unfolding handle_poll_result
  poll_once r fds current =
      if ltb (2 ^ 64 - 1) (length fds)
      then (thrown too_many, [])
      else (let out = handle_poll_result r.outcome fds current in
          (out.0, polled fds (timeout_from_interval r.maximum_wait_interval) ∷ out.1))

  -- What follows a pass, where `rest` is the rest of the run.
  pub go_on : Result Bool × List Seen → End × List Seen → End × List Seen
  go_on (thrown e, seen) rest = (threw e, seen)
  go_on (ok true, seen) rest = (rest.0, seen ++ rest.1)
  go_on (ok false, seen) rest = (stopped, seen)

  pub run_loop : List Round → LoopState → End × List Seen
  unfolding refresh clear_revents go_on
  run_loop [] s = (running, [])
  run_loop (r ∷ rounds) s =
      let s1 = refresh (record s { impl = apply_all r.ops s.impl }) in
      let cleared = clear_revents s1.fds in
      let rest = run_loop rounds (record s1 { fds = cleared }) in
      if r.should_stop
      then (stopped, [])
      else if is_empty s1.fds
      then (stopped, [])
      else go_on (poll_once r cleared s1.current_resources) rest

  -- `fireWillStop()` behind the loop; an exception passes it by.
  pub finish : End × List Seen → End × List Seen
  unfolding fire
  finish (stopped, seen) = (stopped, seen ++ fire will_stop)
  finish (running, seen) = (running, seen)
  finish (threw e, seen) = (threw e, seen)

  pub run : List Round → Impl → End × List Seen
  unfolding run_loop finish fire
  run rounds impl =
      if impl.has_delegate
      then (let out =
            finish (run_loop rounds (record { impl = impl; fds = []; current_resources = [] })) in
          (out.0, fire has_started ++ out.1))
      else (threw (runtime_error (codes "No delegate has been assigned.")), [])
