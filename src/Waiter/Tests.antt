-- ===== src/Waiter/Tests.antt =====
-- Runs of a Waiter with three waitables, and the theorems about it there.
use zth.Base.{
  ℕ, ◌+◌, ◌≡◌, refl, inl, inr, false, [], ◌∷◌, some, All, arith, ltb, ◌==◌, if◌then◌else◌,
  Bool-cases,
}
use zth.Base.Int.{pos, ◌-ℤ◌, ◌+ℤ◌}
use zth.Time.Interval.{TimeInterval}
use zth.Time.Interval
use zth.Time.Stamp.{Timestamp}
use zth.Time.Stamp
use zth.Fiber.{Fiber, State, ready, waiting, running}
use zth.SortedList.Order.{IsSorted}
use zth.Waiter.{Waiter, run_due, sooner}
use zth.Waiter.Poll.{Kind, timed, polled, poll, StepsOn, poll-IsFair}
use zth.Waiter.Due.{NotDue, run_due_ends}
use zth.List.Cycle.{Away}
use zth.Waiter.Timed.{in_front, AllMayAdd, run_due_timed}

abbrev second : TimeInterval
second = record { sec = pos 1; nsec = pos 0; negative = false }

abbrev time : ℕ → Timestamp
time n = record { sec = pos n; nsec = pos 0 }

abbrev in_state : State → Fiber
in_state s = record {
  state = s;
  state_next = ready;
  refs = 1;
  stack_size = 0x2000;
  context = 7;
  fls = 0;
  total_time = second;
  start_run = time 0;
  state_end = time 0;
  timeslice = second;
  dt_max = second;
}

-- The fibers 11, 12 and 13 wait for the waitables 1, 2 and 3, which time out at that many seconds.
abbrev three : Waiter
three = record {
  worker = record {
    fibers = λ f. in_state (if ltb 10 f then waiting else running);
    home = 1;
    current = 2;
    runnable = 2 ∷ [];
    suspended = [];
    run_end = time 0;
    disabled = 0;
  };
  waiting = 1 ∷ 2 ∷ 3 ∷ [];
  self = 2;
  timeout = time;
  owner = λ x. x + 10;
}

-- The second waitable polls a function that says no.
abbrev kind_of : ℕ → Kind
kind_of x = if x == 2 then polled false second else timed

kind_of-StepsOn : (x : ℕ) → StepsOn (kind_of x) (time 3)
unfolding Stamp.is_before Stamp.add Interval.add Interval.saturates ◌-ℤ◌ Interval.carry ◌+ℤ◌
kind_of-StepsOn x = elim (Bool-cases (x == 2)) [ inl e ↦ rw e refl | inr e ↦ rw e tt ]

run_due_ends_example :
    (w' : Waiter) × (run_due 4 (poll kind_of) (time 3) three ≡ some w')
    × IsSorted (sooner w'.timeout) w'.waiting
    × All (NotDue (time 3) w'.timeout) w'.waiting
unfolding Stamp.is_before
run_due_ends_example =
    run_due_ends (poll kind_of) (time 3) (poll-IsFair kind_of (time 3) kind_of-StepsOn) 4 three
      ((refl, (refl, tt)), ((refl, tt), (tt, tt))) (omega arith)

run_due_timed_example :
    (w' : Waiter) × (run_due 3 (poll (λ x. timed)) (time 3) three ≡ some w')
    × (w'.waiting ≡ 3 ∷ [])
    × (w'.worker.runnable ≡ in_front (11 ∷ 12 ∷ []) (2 ∷ []))
    × All (λ f. (w'.worker.fibers f).state ≡ ready) (11 ∷ 12 ∷ [])
    × ((g : ℕ) → Away g (11 ∷ 12 ∷ []) → w'.worker.fibers g ≡ three.worker.fibers g)
    × AllMayAdd (11 ∷ 12 ∷ []) three.worker
unfolding Stamp.is_before
run_due_timed_example =
    run_due_timed (λ x. timed) (time 3) (1 ∷ 2 ∷ []) (3 ∷ []) three refl (refl, (refl, tt))
      (refl, (refl, tt)) (refl, tt)
      (
        (refl, refl, ((λ e. ground (arith, e)), tt), tt),
        ((refl, refl, ((λ e. ground (arith, e)), tt), tt), tt),
      )
      (((λ e. ground (arith, e)), tt), (tt, tt))

-- The one that was due last is first in the run queue.
woken : in_front (11 ∷ 12 ∷ []) (2 ∷ []) ≡ 12 ∷ 11 ∷ 2 ∷ []
woken = refl
