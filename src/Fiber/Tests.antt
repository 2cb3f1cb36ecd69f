-- ===== src/Fiber/Tests.antt =====
-- Runs of a fiber's state machine, and the theorems about it at concrete fibers.
use zth.Base.{ℕ, ◌≡◌, ◌≢◌, refl, inr, some, none, false, List, [], ◌∷◌}
use zth.Base.Int.{pos, ◌+ℤ◌, ◌-ℤ◌}
use zth.Time.Interval.{
  TimeInterval, sub, neg, add, saturates, borrow, is_abs_bigger_than, is_infinite,
}
use zth.Time.Stamp.{Timestamp}
use zth.Time.Stamp
use zth.Fiber.{
  Fiber, Env, new, ready, running, waiting, suspended, fiber, nap, wakeup, suspend, resume, run,
}
use zth.Fiber.Machine.{
  Event, naps, wakes, suspends, resumes, IsSound, run-IsSound, wakeup_ready, wakeup-nap,
  resume-suspend, both_stuck,
}
use zth.Fiber.Machine
use zth.Fiber.Switch.{IsSwitch, run-ne-none, run_switches}

abbrev slice : TimeInterval
slice = record { sec = pos 0; nsec = pos 100_000; negative = false }

abbrev at : ℕ → Timestamp
at s = record { sec = pos s; nsec = pos 0 }

abbrev fresh : Fiber
fresh = record {
  state = new;
  state_next = ready;
  refs = 1;
  stack_size = 0x2000;
  context = 0;
  fls = 0;
  total_time = record { sec = pos 0; nsec = pos 0; negative = false };
  start_run = at 0;
  state_end = at 0;
  timeslice = slice;
  dt_max = slice;
}

abbrev active : Fiber
active = record fresh { state = running; context = 7; start_run = at 3 }

abbrev asleep : Fiber
asleep = record active { state = waiting }

abbrev env : Env
env = record { create_result = 0; new_context = 8; check_overrun = false; after_report = at 0 }

abbrev history : List Event
history = suspends ∷ wakes ∷ resumes ∷ naps (at 9) ∷ []

constructed : fiber 0x2000 slice slice ≡ record fresh { refs = 0 }
unfolding fiber
constructed = refl

run-IsSound_example : IsSound (Machine.run history active)
unfolding suspend wakeup resume nap Machine.step
run-IsSound_example = run-IsSound history active ((λ e. cc), (tt, (tt, ((λ e. cc), tt)))) refl

run-ne-none_example : run env fresh active (at 5) ≢ none
run-ne-none_example = run-ne-none env active (at 5) fresh

run_switches_example :
    (self' : Fiber) × (from' : Fiber) × (run env fresh active (at 5) ≡ some (0, self', from'))
    × IsSwitch env slice active self' from' (at 5) (at 5)
unfolding Stamp.diff Stamp.time_to sub neg add saturates borrow is_abs_bigger_than is_infinite ◌+ℤ◌
    ◌-ℤ◌
run_switches_example = run_switches env fresh active (at 5) (at 5) refl (inr (refl, refl, refl))

both_stuck_example :
    ((Machine.run (wakes ∷ resumes ∷ []) (suspend asleep)).state ≡ waiting)
    × ((Machine.run
          (wakes ∷ resumes ∷ [])
          (resume (nap (at 9) (record active { state = suspended })))).state
        ≡ waiting)
both_stuck_example =
    both_stuck (wakes ∷ resumes ∷ []) asleep (record active { state = suspended }) (at 9) refl refl
