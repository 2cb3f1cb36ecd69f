-- ===== src/Fsm/Tests.antt =====
-- A machine of two states, compiled and run, and the theorems about machines there.
use zth.Base.{
  ℕ, ◌+◌, ◌≡◌, refl, true, false, none, some, List, [], ◌∷◌, if◌then◌else◌, get_elem?, arith,
}
use zth.Base.Int.{pos}
use zth.Time.Interval.{TimeInterval}
use zth.Time.Interval
use zth.Time.Stamp.{Timestamp}
use zth.Fsm.{
  Fsm, Compiled, input, guard, always, never, nothing, push, pop, reset, step, take, enabled,
  try_run, poll_interval, has_input,
}
use zth.Fsm.Symbols.{Symbol}
use zth.Fsm.Table.{Transition, compile, gives, throws, not_contiguous, start}
use zth.Fsm.Compile.{IsCompiled, compile-IsCompiled}
use zth.Fsm.Step.{step_first, pop-take-push, try_run_passes}
use zth.Fsm.Inputs.{clear_input, clear_input_takes, count, one_of}

abbrev idle : List ℕ
idle = 105 ∷ []

abbrev busy : List ℕ
busy = 98 ∷ []

abbrev go : Symbol
go = some (103 ∷ 111 ∷ [])

abbrev transitions : List Transition
transitions =
    (record { from = some idle; trigger = guard never; action = nothing; to = none })
    ∷ (record { from = none; trigger = input go; action = push; to = some busy })
    ∷ (record { from = some busy; trigger = guard never; action = nothing; to = some idle })
    ∷ []

abbrev table : List Compiled
table =
    start (guard always) 1
    ∷ (record { trigger = guard never; action = nothing; from = some idle; to = 0 })
    ∷ (record { trigger = input go; action = push; from = none; to = 3 })
    ∷ (record { trigger = guard never; action = nothing; from = some busy; to = 1 })
    ∷ []

compiled : compile transitions ≡ gives table
unfolding compile
compiled = refl

-- A state that comes back is refused.
scattered :
    compile (
      (record { from = some idle; trigger = guard never; action = nothing; to = none })
      ∷ (record { from = some busy; trigger = guard never; action = nothing; to = none })
      ∷ (record { from = some idle; trigger = guard always; action = nothing; to = none })
      ∷ [])
    ≡ throws not_contiguous
unfolding compile
scattered = refl

abbrev now : Timestamp
now = record { sec = pos 3; nsec = pos 0 }

abbrev in_idle : Fsm
in_idle = record {
  flags = record {
    entry = true;
    selfloop = false;
    blocked = false;
    transition = true;
    pushed = false;
    popped = false;
    stop = false;
    input = false;
  };
  prev = 0;
  transition = 0;
  state = 1;
  stack = [];
  inputs = [];
  entered = now;
}

abbrev told : Fsm
told = record in_idle { inputs = go ∷ [] }

started : (step table now (reset now in_idle)).1 ≡ in_idle
unfolding step reset Interval.has_passed
started = refl

compile-IsCompiled_example :
    (c : Compiled) × (get_elem? table 2 ≡ some c)
    × IsCompiled transitions 1
        (record { from = none; trigger = input go; action = push; to = some busy })
        c
compile-IsCompiled_example =
    compile-IsCompiled transitions table compiled 1
      (record { from = none; trigger = input go; action = push; to = some busy }) refl

step_first_example : step table now told ≡ (
  poll_interval true,
  take now 2 (record { trigger = input go; action = push; from = none; to = 3 }) told,
)
unfolding enabled Interval.has_passed
step_first_example =
    step_first table now
      ((record { trigger = guard never; action = nothing; from = some idle; to = 0 }) ∷ [])
      (record { trigger = input go; action = push; from = none; to = 3 })
      ((record { trigger = guard never; action = nothing; from = some busy; to = 1 }) ∷ []) told
      told refl (refl, tt) (refl, refl) refl

pop-take-push_example :
    let c : Compiled = record { trigger = input go; action = push; from = none; to = 3 } in
    let h = pop now (take now 2 c told) in
    ((take now 2 c told).state ≡ 3)
    × (h.state ≡ 1)
    × (h.prev ≡ 3)
    × (h.stack ≡ [])
    × (h.flags.popped ≡ true)
pop-take-push_example = pop-take-push now now 2 (input go) none 3 told (omega arith) (omega arith)

try_run_passes_example : Interval.has_passed (try_run (start (guard never) 1) in_idle).0 ≡ true
try_run_passes_example = try_run_passes (start (guard never) 1) in_idle

clear_input_takes_example :
    ((clear_input go told).0 ≡ has_input go (go ∷ []))
    × (count go (clear_input go told).1.inputs
          + (if has_input go (go ∷ []) then one_of go go else 0)
        ≡ count go (go ∷ []))
clear_input_takes_example = clear_input_takes (103 ∷ 111 ∷ []) go told
