-- ===== src/Fiber.antt =====
-- include/libzth/fiber.h: class Fiber, the states of a fiber and the switch to it. A pointer is a
-- number, 0 for null. Where the code reads the clock, the time is an argument; the result of
-- context_create() is one too. Hooks, perf events, debug prints and exceptions are left out, and a
-- zth_assert() is a condition on the caller.
pub mod Machine
pub mod Switch
mod Tests
use zth.Base.{
  ℕ, zero, suc, ◌+◌, ◌-◌, Bool, true, false, ◌&&◌, ◌||◌, Option, none, some, ltb, ◌==◌,
  if◌then◌else◌,
}
use zth.Time.Interval.{TimeInterval}
use zth.Time.Interval
use zth.Time.Stamp.{Timestamp, diff}
use zth.Time.Stamp

-- Fiber::State
pub data State : Type 0 where
  uninitialized new ready running waiting suspended dead : State

abbrev pub is_state : State → State → Bool
is_state uninitialized uninitialized = true
is_state new new = true
is_state ready ready = true
is_state running running = true
is_state waiting waiting = true
is_state suspended suspended = true
is_state dead dead = true
is_state _ _ = false

-- errno values
abbrev pub eperm : ℕ
eperm = 1

abbrev pub eagain : ℕ
eagain = 11

abbrev pub einval : ℕ
einval = 22

-- The members of Fiber, and m_count of its base RefCounted.
pub record Fiber : Type 0 where
  pub state : State
  pub state_next : State
  pub refs : ℕ
  pub stack_size : ℕ
  pub context : ℕ
  pub fls : ℕ
  pub total_time : TimeInterval
  pub start_run : Timestamp
  pub state_end : Timestamp
  pub timeslice : TimeInterval
  pub dt_max : TimeInterval

-- The constructor, with the stack size, time slice and overrun threshold of the configuration.
unfoldable pub fiber : ℕ → TimeInterval → TimeInterval → Fiber
fiber stack_size timeslice dt_max = record {
  state = new;
  state_next = ready;
  refs = 0;
  stack_size = stack_size;
  context = 0;
  fls = 0;
  total_time = Interval.null;
  start_run = Stamp.null;
  state_end = Stamp.null;
  timeslice = timeslice;
  dt_max = dt_max;
}

abbrev pub set_state : Fiber → State → Fiber
set_state f s = record f { state = s }

-- setStackSize(): the result code and the fiber.
unfoldable pub set_stack_size : Fiber → ℕ → ℕ × Fiber
set_stack_size f size =
    if is_state f.state new then (0, record f { stack_size = size }) else (eperm, f)

unfoldable pub kill : Fiber → Fiber
kill f = set_state f dead

-- nap(): what a fiber does when it is put to sleep until the given time.
unfoldable pub nap : Timestamp → Fiber → Fiber
nap until f = elim f.state [
  | new ↦ record f { state_next = waiting; state_end = until }
  | ready ↦ record f { state = waiting; state_next = ready; state_end = until }
  | running ↦ record f { state = waiting; state_next = ready; state_end = until }
  | suspended ↦ record f { state_next = waiting; state_end = until }
  | _ ↦ f
]

unfoldable pub wakeup : Fiber → Fiber
wakeup f = elim f.state [
  | waiting ↦ elim f.state_next [
    | suspended ↦ record f { state = suspended; state_next = ready }
    | next ↦ record f { state = next }
  ]
  | suspended ↦ if is_state f.state_next waiting then record f { state_next = ready } else f
  | _ ↦ f
]

unfoldable pub suspend : Fiber → Fiber
suspend f = elim f.state [
  | new ↦ record f { state = suspended; state_next = new }
  | running ↦ record f { state = suspended; state_next = ready }
  | ready ↦ record f { state = suspended; state_next = ready }
  | waiting ↦ record f { state_next = waiting }
  | _ ↦ f
]

unfoldable pub resume : Fiber → Fiber
resume f = elim f.state [
  | suspended ↦ elim f.state_next [
    | new ↦ record f { state = new; state_next = ready }
    | next ↦ record f { state = next }
  ]
  | _ ↦ f
]

unfoldable pub allow_yield : Fiber → Timestamp → Bool
allow_yield f now = elim f.state [ running ↦ Stamp.is_before f.state_end now | _ ↦ true ]

-- What the environment decides in a switch: the result and the handle of context_create(), whether
-- time slice overruns are checked, and the clock after the report of one.
pub record Env : Type 0 where
  pub create_result : ℕ
  pub new_context : ℕ
  pub check_overrun : Bool
  pub after_report : Timestamp

unfoldable pub init : Env → Fiber → Timestamp → ℕ × Fiber
unfolding kill
init env f now =
    if is_state f.state new
    then (if env.create_result == 0
        then (
          0,
          record f {
            context = env.new_context;
            state = f.state_next;
            state_next = ready;
            start_run = now;
          },
        )
        else (env.create_result, kill f))
    else (eperm, f)

-- Case Ready of run(): account the time to `from`, and switch to `self`.
unfoldable pub switch_to : Env → Fiber → Fiber → Timestamp → Fiber × Fiber
switch_to env self from now =
    let dt = diff now from.start_run in
    let overrun = env.check_overrun && Interval.lt from.dt_max dt in
    let now' = if overrun then env.after_report else now in
    (
      record self { start_run = now'; state = running; state_end = Stamp.add now' self.timeslice },
      record from {
        total_time = Interval.add from.total_time dt;
        state = if is_state from.state running then ready else from.state;
        dt_max = if overrun then dt else from.dt_max;
      },
    )

-- The result of run(): the code, this fiber and the fiber that it is called from. A code 0 means
-- that the context of this fiber took over.
abbrev pub Ran : Type 0
Ran = ℕ × Fiber × Fiber

-- Case New, after init(): jump back to `again` if that went well.
abbrev pub after_init : (Fiber → Option Ran) → Fiber → ℕ × Fiber → Option Ran
after_init again from (res, self) = if res == 0 then again self else some (res, self, from)

-- The switch of run() on the state; `again` is the jump back.
unfoldable pub dispatch :
    State → (Fiber → Option Ran) → Env → Fiber → Fiber → Timestamp → Option Ran
dispatch new again env self from now = after_init again from (init env self now)
dispatch ready again env self from now =
    let (self', from') = switch_to env self from now in some (0, self', from')
dispatch running again env self from now = some (eagain, self, from)
dispatch dead again env self from now = some (eperm, self, from)
dispatch _ again env self from now = some (einval, self, from)

-- run(), with fuel for the jumps; `none` means that it ran out.
unfoldable pub run_fuel : ℕ → Env → Fiber → Fiber → Timestamp → Option Ran
run_fuel zero env self from now = none
run_fuel (suc n) env self from now =
    dispatch self.state (λ f. run_fuel n env f from now) env self from now

-- Three rounds are enough: see Fiber/Switch.antt.
unfoldable pub run : Env → Fiber → Fiber → Timestamp → Option Ran
run = run_fuel 3
