-- ===== src/Poller/Direct.antt =====
-- What a round of the poller has to do for the resources that it holds, told without its arrays:
-- which descriptors it watches for what, and which callbacks the reported events lead to.
use kssio.Prelude.{
  Text, text_eq, ◌∙◌, ℕ, ◌-◌, ◌^◌, Bool, true, false, not, suc, List, [], ◌∷◌, ◌++◌, map, bit_and,
  ltb, ◌==◌, if◌then◌else◌, length, codes, Result, ok, thrown, system_error, ◌≡◌, refl, Bool-cases,
  inl, inr, ap, sym,
}
use kssio.Poller.Resources.{
  Op, add, remove, remove_all, Impl, apply, apply_all, erase_named, Event, read, write, any,
  PolledResource,
}
use kssio.Poller.Timeout.{timeout_from_interval}
use kssio.Poller.{
  Pollfd, Callback, error_has_occurred, has_disconnected, read_is_ready, write_is_ready, Seen,
  called, logged, polled, Outcome, failure, timed_out, ready, Round, to_pollfd,
  events_from_resource_event, too_many, store_revents, fire, fire_if,
  trigger_callbacks_for_resource, trigger_callbacks, handle_poll_result, poll_once, End, running,
  stopped, threw, has_started, will_stop, go_on, finish,
}

-- The resources that are held behind some calls: each that was added and has not been removed by its
-- name since.
abbrev others : Text → List PolledResource → List PolledResource
others n [] = []
others n (r ∷ rs) = if text_eq r.name n then others n rs else r ∷ others n rs

abbrev pub held : List Op → List PolledResource → List PolledResource
held [] rs = rs
held (add r ∷ ops) rs = held ops (rs ++ r ∷ [])
held (remove n ∷ ops) rs = held ops (others n rs)
held (remove_all ∷ ops) rs = held ops []

erase_named-others : (n : Text) (rs : List PolledResource) → erase_named n rs ≡ others n rs
unfolding erase_named
erase_named-others n [] = refl
erase_named-others n (r ∷ rs) = rw (erase_named-others n rs) refl

pub apply_all-held :
    (ops : List Op) (impl : Impl) → (apply_all ops impl).resources ≡ held ops impl.resources
unfolding apply_all apply
apply_all-held [] impl = refl
apply_all-held (add r ∷ ops) impl = apply_all-held ops (apply (add r) impl)
apply_all-held (remove n ∷ ops) impl =
    apply_all-held ops (apply (remove n) impl) ∙ ap (held ops) (erase_named-others n impl.resources)
apply_all-held (remove_all ∷ ops) impl = apply_all-held ops (apply remove_all impl)

-- POLLIN is 1 and POLLOUT is 4.
abbrev wanted : Event → ℕ
wanted read = 1
wanted write = 4
wanted any = 5

-- The descriptor of the resource, with no event reported.
abbrev pub watched : PolledResource → Pollfd
watched r = record { fd = r.filedes; events = wanted r.event; revents = 0 }

-- The callbacks of a resource for what is reported of it, in their order: POLLERR is 8, POLLHUP is 16.
abbrev only_if : Bool → Callback → List Callback
only_if true cb = cb ∷ []
only_if false cb = []

abbrev reported : ℕ → PolledResource → List Callback
reported revents r =
    only_if (not (bit_and revents 8 == 0)) (error_has_occurred r)
    ++ (only_if (not (bit_and revents 16 == 0)) (has_disconnected r)
        ++ (only_if (not (bit_and revents 1 == 0)) (read_is_ready r)
            ++ only_if (not (bit_and revents 4 == 0)) (write_is_ready r)))

-- The first report is of the first resource, and so on.
abbrev all_reported : List ℕ → List PolledResource → List Callback
all_reported [] rs = []
all_reported (e ∷ res) [] = []
all_reported (e ∷ res) (r ∷ rs) = reported e r ++ all_reported res rs

module _ (throws : Callback → Bool) where
  -- Each is called, and what it throws is logged.
  abbrev calls : List Callback → List Seen
  calls [] = []
  calls (cb ∷ cbs) = called cb ∷ (if throws cb then logged ∷ calls cbs else calls cbs)

  -- EAGAIN, which is 11, goes on, and EINTR, which is 4, stops the run.
  abbrev answered : Outcome → List PolledResource → Result Bool × List Seen
  answered (failure errno) rs =
      if errno == 11
      then (ok true, logged ∷ [])
      else if errno == 4
      then (ok false, logged ∷ [])
      else (thrown (system_error errno (codes "poll")), [])
  answered timed_out rs = (ok true, [])
  answered (ready res) rs = (ok true, calls (all_reported res rs))

  abbrev pub watch_once : Round → List PolledResource → Result Bool × List Seen
  watch_once r rs =
      if ltb (2 ^ 64 - 1) (length rs)
      then (thrown too_many, [])
      else (let out = answered r.outcome rs in
          (out.0, polled (map watched rs) (timeout_from_interval r.maximum_wait_interval) ∷ out.1))

  calls-append : (as_ bs : List Callback) → calls (as_ ++ bs) ≡ calls as_ ++ calls bs
  calls-append [] bs = refl
  calls-append (cb ∷ cbs) bs = elim (Bool-cases (throws cb)) [
    | inl e ↦ rw (e, calls-append cbs bs) refl
    | inr e ↦ rw (e, calls-append cbs bs) refl
  ]

  fire_if-calls :
      (revents mask : ℕ) (cb : Callback)
      → fire_if throws revents mask cb ≡ calls (only_if (not (bit_and revents mask == 0)) cb)
  unfolding fire_if fire
  fire_if-calls revents mask cb = elim (Bool-cases (bit_and revents mask == 0)) [
    | inl e ↦ rw e refl
    | inr e ↦ elim (Bool-cases (throws cb)) [ inl t ↦ rw (e, t) refl | inr t ↦ rw (e, t) refl ]
  ]

  trigger-reported :
      (p : Pollfd) (r : PolledResource)
      → trigger_callbacks_for_resource throws p r ≡ calls (reported p.revents r)
  unfolding trigger_callbacks_for_resource
  trigger-reported p r = simp (fire_if-calls, calls-append)

  trigger-unreported :
      (rs : List PolledResource) → trigger_callbacks throws (map to_pollfd rs) rs ≡ []
  unfolding trigger_callbacks trigger_callbacks_for_resource fire_if
  trigger-unreported [] = refl
  trigger-unreported (r ∷ rs) = trigger-unreported rs

  trigger-all_reported :
      (res : List ℕ) (rs : List PolledResource)
      → trigger_callbacks throws (store_revents (map to_pollfd rs) res) rs
        ≡ calls (all_reported res rs)
  unfolding trigger_callbacks store_revents
  trigger-all_reported [] [] = refl
  trigger-all_reported [] (r ∷ rs) = trigger-unreported (r ∷ rs)
  trigger-all_reported (e ∷ res) [] = refl
  trigger-all_reported (e ∷ res) (r ∷ rs) =
      rw (trigger-reported, trigger-all_reported res rs)
        (sym (calls-append (reported e r) (all_reported res rs)))

wanted_lem : (e : Event) → events_from_resource_event e ≡ wanted e
wanted_lem read = refl
wanted_lem write = refl
wanted_lem any = refl

pub to_pollfd-watched : (rs : List PolledResource) → map to_pollfd rs ≡ map watched rs
to_pollfd-watched [] = refl
to_pollfd-watched (r ∷ rs) = rw (to_pollfd-watched rs, wanted_lem r.event) refl

length-watched : (rs : List PolledResource) → length (map watched rs) ≡ length rs
length-watched [] = refl
length-watched (r ∷ rs) = ap suc (length-watched rs)

module _ (throws : Callback → Bool) where
  handle-answered :
      (o : Outcome) (rs : List PolledResource)
      → handle_poll_result throws o (map to_pollfd rs) rs ≡ answered throws o rs
  unfolding handle_poll_result
  handle-answered (failure errno) rs = refl
  handle-answered timed_out rs = refl
  handle-answered (ready res) rs = rw (trigger-all_reported throws res rs) refl

  pub poll_once-watch_once :
      (r : Round) (rs : List PolledResource)
      → poll_once throws r (map to_pollfd rs) rs ≡ watch_once throws r rs
  unfolding poll_once
  poll_once-watch_once r rs =
      rw (handle-answered r.outcome rs, to_pollfd-watched rs, length-watched rs) refl

  -- An exception ends the run, and so does an interrupted poll.
  abbrev pub continued : Result Bool × List Seen → End × List Seen → End × List Seen
  continued (thrown e, seen) rest = (threw e, seen)
  continued (ok again, seen) rest = if again then (rest.0, seen ++ rest.1) else (stopped, seen)

  pub go_on-continued :
      (out : Result Bool × List Seen) (rest : End × List Seen)
      → go_on throws out rest ≡ continued out rest
  unfolding go_on
  go_on-continued (thrown e, seen) rest = refl
  go_on-continued (ok true, seen) rest = refl
  go_on-continued (ok false, seen) rest = refl

  -- The delegate hears of the start, and of the end unless an exception ends the run.
  abbrev pub whole : End × List Seen → End × List Seen
  whole (running, seen) = (running, calls throws (has_started ∷ []) ++ seen)
  whole (stopped, seen) =
      (stopped, calls throws (has_started ∷ []) ++ (seen ++ calls throws (will_stop ∷ [])))
  whole (threw e, seen) = (threw e, calls throws (has_started ∷ []) ++ seen)

  fire-calls : (cb : Callback) → fire throws cb ≡ calls throws (cb ∷ [])
  unfolding fire
  fire-calls cb = elim (Bool-cases (throws cb)) [ inl t ↦ rw t refl | inr t ↦ rw t refl ]

  pub finish-whole :
      (out : End × List Seen)
      → (let f = finish throws out in (f.0, fire throws has_started ++ f.1)) ≡ whole out
  unfolding finish
  finish-whole (running, seen) = rw (fire-calls has_started) refl
  finish-whole (stopped, seen) = rw (fire-calls has_started, fire-calls will_stop) refl
  finish-whole (threw e, seen) = rw (fire-calls has_started) refl
