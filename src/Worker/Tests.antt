-- ===== src/Worker/Tests.antt =====
-- Runs of a worker, and the theorems about it at a worker of four fibers.
use zth.Base.{ℕ, ◌≡◌, refl, inl, arith, false, some, [], ◌∷◌, if◌then◌else◌, ◌==◌}
use zth.Base.Int.{pos}
use zth.Time.Interval.{TimeInterval}
use zth.Time.Stamp.{Timestamp}
use zth.Time.Stamp
use zth.Fiber.{Fiber, Env, State, ready, running, dead, suspended}
use zth.Fiber
use zth.Worker.{Worker, schedule, switches, rotate_past}
use zth.Worker.Schedule.{Switched, schedule_first}

abbrev slice : TimeInterval
slice = record { sec = pos 0; nsec = pos 100_000; negative = false }

abbrev zero_time : Timestamp
zero_time = record { sec = pos 0; nsec = pos 0 }

abbrev time : Timestamp
time = record { sec = pos 5; nsec = pos 0 }

abbrev in_state : State → Fiber
in_state s = record {
  state = s;
  state_next = ready;
  refs = 1;
  stack_size = 0x2000;
  context = 7;
  fls = 0;
  total_time = slice;
  start_run = time;
  state_end = time;
  timeslice = slice;
  dt_max = slice;
}

abbrev env : Env
env = record { create_result = 0; new_context = 8; check_overrun = false; after_report = time }

-- The worker's own fiber is 1; 2 and 3 have died.
abbrev state_of : ℕ → State
state_of f = if f == 1 then running else if f == 2 then dead else if f == 3 then dead else ready

abbrev busy : Worker
busy = record {
  fibers = λ f. in_state (state_of f);
  home = 1;
  current = 0;
  runnable = 2 ∷ 3 ∷ 4 ∷ 5 ∷ [];
  suspended = [];
  run_end = zero_time;
  disabled = 0;
}

turned : rotate_past 3 [] (2 ∷ 3 ∷ 4 ∷ []) ≡ 4 ∷ 2 ∷ 3 ∷ []
unfolding rotate_past
turned = refl

schedule_first_example :
    (v : Worker) × (schedule env 0 time time busy ≡ some (switches, v))
    × Switched env time time 4 (5 ∷ 4 ∷ []) v
unfolding Stamp.is_null
schedule_first_example =
    schedule_first env time time busy (2 ∷ 3 ∷ []) 4 (5 ∷ []) refl (inl refl) refl (ground arith)
      (refl, (refl, tt)) ((omega arith), ((omega arith), tt)) refl

-- The fibers 4 and 5 are in the run queue, and 6 is suspended.
abbrev idle : Worker
idle = record busy {
  fibers = λ f. in_state (if f == 6 then suspended else ready);
  runnable = 4 ∷ 5 ∷ [];
  suspended = 6 ∷ [];
}
