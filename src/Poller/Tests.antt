-- ===== src/Poller/Tests.antt =====
-- Concrete runs of the poller.
use kssio.Prelude.{arith, min, refl, inl, ◌∷◌, ◌++◌, ◌≡◌}
use kssio.Prelude.Int.{pos, negsuc}
use kssio.Poller.{
  false, true, codes, [], List, Bool, Round, Outcome, Seen, Callback, running, stopped, threw, run,
  finish, fire, has_started, will_stop, called, polled, logged, read_is_ready, has_disconnected,
  to_pollfd, ready, timed_out, failure,
}
use kssio.Poller.Resources.{Impl, Op, Event, PolledResource, remove, apply, apply_all}
use kssio.Poller.Timeout.{IsInt, timeout_from_interval, int_max, milliseconds_max}
use kssio.Poller.Timeout.{timeout_from_interval_cases}
use kssio.Poller.Direct.{whole}
use kssio.Poller.Refresh.{run-direct, run_unchanged, direct_loop}

abbrev quiet : Callback → Bool
quiet cb = false

abbrev pipe : PolledResource
pipe = record { name = codes "pipe"; filedes = pos 3; event = Event.read; payload = 0 }

abbrev poller : Impl
poller = record { has_delegate = true; resources = pipe ∷ []; resources_have_changed = true }

abbrev settled_poller : Impl
settled_poller = record {
  has_delegate = true;
  resources = pipe ∷ [];
  resources_have_changed = false;
}

abbrev round : List Op → Bool → Outcome → Round
round ops stop o = record {
  ops = ops;
  should_stop = stop;
  maximum_wait_interval = pos 100;
  outcome = o;
}

abbrev rounds : List Round
rounds = round [] false (ready (17 ∷ [])) ∷ round (remove (codes "pipe") ∷ []) false timed_out ∷ []

pipe_polled : run quiet rounds poller ≡ (
  stopped,
  called has_started
      ∷ polled (to_pollfd pipe ∷ []) (pos 100)
      ∷ called (has_disconnected pipe)
      ∷ called (read_is_ready pipe)
      ∷ called will_stop
      ∷ [],
)
unfolding run apply_all kssio.Poller.poll_once apply timeout_from_interval
pipe_polled = refl

timeout_from_interval_cases_example :
    (timeout_from_interval (pos 0) ≡ pos 0)
    × (timeout_from_interval milliseconds_max ≡ negsuc 0)
    × (timeout_from_interval (pos 5000) ≡ pos (min 5000 int_max))
    × (timeout_from_interval (negsuc 20) ≡ negsuc 20)
    × IsInt (timeout_from_interval (negsuc 4294967295))
timeout_from_interval_cases_example =
    timeout_from_interval_cases 5000 20 (negsuc 4294967295) (omega arith) (omega arith)

run-direct_example :
    run quiet rounds poller ≡ whole quiet (direct_loop quiet rounds poller.resources)
run-direct_example = run-direct quiet rounds poller refl (inl refl)

run_unchanged_example :
    run quiet (round [] false timed_out ∷ []) settled_poller
    ≡ (stopped, fire quiet has_started ++ fire quiet will_stop)
run_unchanged_example =
    run_unchanged quiet (round [] false timed_out) [] settled_poller refl refl refl
