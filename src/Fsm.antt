-- ===== src/Fsm.antt =====
-- include/libzth/fsm14.h: finite state machines, from a table of transitions. What a guard and an
-- action do is given by the user: a guard gives a poll interval and may change the machine, as
-- entry() does. A reference to the machine is the machine as an argument.
pub mod Symbols
pub mod Table
pub mod Targets
pub mod Compile
pub mod Step
pub mod Inputs
mod Tests
use zth.Base.{
  ℕ, zero, suc, ◌+◌, ◌-◌, Bool, true, false, not, ◌&&◌, ◌||◌, Option, none, some, List, [], ◌∷◌,
  ◌++◌, length, ltb, ◌==◌, if◌then◌else◌,
}
use zth.Time.Interval.{TimeInterval}
use zth.Time.Interval
use zth.Time.Stamp.{Timestamp}
use zth.Fsm.Symbols.{Symbol, is_valid}
use zth.Fsm.Symbols

-- BasicFsm::Flag, but for `flags`.
pub record Flags : Type 0 where
  pub entry : Bool
  pub selfloop : Bool
  pub blocked : Bool
  pub transition : Bool
  pub pushed : Bool
  pub popped : Bool
  pub stop : Bool
  pub input : Bool

-- BasicFsm without its table, and m_t of Fsm. The back of m_stack is the head of the list.
pub record Fsm : Type 0 where
  pub flags : Flags
  pub prev : ℕ
  pub transition : ℕ
  pub state : ℕ
  pub stack : List ℕ
  pub inputs : List Symbol
  pub entered : Timestamp

-- GuardPollInterval(bool), and what it is as a bool.
abbrev pub poll_interval : Bool → TimeInterval
poll_interval enabled = if enabled then Interval.null else Interval.infinity

abbrev pub Guard : Type 0
Guard = Fsm → TimeInterval × Fsm

abbrev pub Action : Type 0
Action = Fsm → Fsm

abbrev pub always : Guard
always f = (poll_interval true, f)

abbrev pub never : Guard
never f = (poll_interval false, f)

abbrev pub nothing : Action
nothing f = f

-- GuardedAction: an input, or a guard.
pub data Trigger : Type 0 where
  input : Symbol → Trigger
  guard : Guard → Trigger

-- CompiledTransition, where `flags` tells the two kinds of trigger apart.
pub record Compiled : Type 0 where
  pub trigger : Trigger
  pub action : Action
  pub from : Symbol
  pub to : ℕ

-- hasInput()
unfoldable pub has_input : Symbol → List Symbol → Bool
unfolding Symbols.equals
has_input none is = false
has_input (some s) [] = false
has_input (some s) (i ∷ is) = if Symbols.equals i (some s) then true else has_input (some s) is

-- Transitions::enabled()
unfoldable pub enabled : Compiled → Fsm → TimeInterval × Fsm
unfolding has_input
enabled c f = elim c.trigger [ input i ↦ (poll_interval (has_input i f.inputs), f) | guard g ↦ g f ]

abbrev pub is_input : Compiled → Bool
is_input c = elim c.trigger [ input _ ↦ true | guard _ ↦ false ]

-- GuardedActionBase::tryRun()
unfoldable pub try_run : Compiled → Fsm → TimeInterval × Fsm
unfolding enabled
try_run c f =
    let (p, f') = enabled c f in
    if not (Interval.has_passed p)
    then (poll_interval (not (Interval.has_passed p)), f')
    else (poll_interval true, c.action f')

-- The loop of step() finds a transition, or the poll interval of the shortest that is not enabled.
pub data Scan : Type 0 where
  found : ℕ → Compiled → Scan
  none_enabled : TimeInterval → Scan

-- Whether the loop is at the end of the state.
abbrev pub ends_state : List Compiled → Bool
ends_state [] = true
ends_state (c ∷ cs) = is_valid c.from

-- The loop of step() over the transitions from index i.
unfoldable pub scan : ℕ → TimeInterval → List Compiled → Fsm → Scan × Fsm
unfolding enabled
scan i again [] f = (none_enabled again, f)
scan i again (c ∷ cs) f =
    let (p, f') = enabled c f in
    let next = if Interval.lt p again then p else again in
    let rest = scan (i + 1) next cs f' in
    if Interval.has_passed p
    then (found i c, f')
    else if ends_state cs
    then (none_enabled next, f')
    else rest

abbrev pub drop : ℕ → List Compiled → List Compiled
drop zero cs = cs
drop (suc n) [] = []
drop (suc n) (c ∷ cs) = drop n cs

-- enter() of Fsm and of BasicFsm, at a time, with the action of transition m_transition.
abbrev pub enter : Timestamp → Action → Fsm → Fsm
enter now run f =
    let timed = if f.flags.transition then record f { entered = now } else f in
    if timed.transition == 0 then timed else run timed

-- What step() does with an enabled transition at index i; leave() has no effect here.
unfoldable pub take : Timestamp → ℕ → Compiled → Fsm → Fsm
take now i c f =
    let ready = record f { transition = i; flags = record f.flags { blocked = false } } in
    if c.to == 0
    then enter now c.action
        (record ready { flags = record ready.flags { transition = false; input = is_input c } })
    else (let moved = enter now c.action (record ready {
      prev = f.state;
      state = c.to;
      flags = record ready.flags {
        selfloop = c.to == f.state;
        transition = true;
        popped = false;
        pushed = false;
        input = is_input c;
      };
    }) in
        record moved { flags = record moved.flags { entry = true } })

unfoldable pub finish : Timestamp → Scan × Fsm → TimeInterval × Fsm
unfolding take
finish now (found i c, f) = (poll_interval true, take now i c f)
finish now (none_enabled again, f) = (again, record f { flags = record f.flags { blocked = true } })

unfoldable pub step : List Compiled → Timestamp → Fsm → TimeInterval × Fsm
unfolding scan finish
step table now f = finish now (scan f.state (poll_interval false) (drop f.state table) f)

unfoldable pub push : Fsm → Fsm
push f = record f { stack = f.prev ∷ f.stack; flags = record f.flags { pushed = true } }

-- pop(), on a stack that is not empty.
unfoldable pub pop : Timestamp → Fsm → Fsm
pop now f = elim f.stack [
  | [] ↦ f
  | to ∷ rest ↦
      let moved = enter now nothing (record f {
        prev = f.state;
        state = to;
        stack = rest;
        transition = 0;
        flags = record f.flags {
          blocked = false;
          selfloop = f.state == to;
          transition = true;
          pushed = false;
          popped = true;
          input = false;
        };
      }) in
      record moved { flags = record moved.flags { entry = true } }
]

-- The guard `entry`.
abbrev pub entry : Guard
entry f =
    if f.flags.entry
    then (poll_interval true, record f { flags = record f.flags { entry = false } })
    else (poll_interval false, f)

-- reset() of Fsm.
unfoldable pub reset : Timestamp → Fsm → Fsm
reset now f = record f {
  state = 0;
  prev = 0;
  transition = 0;
  stack = [];
  entered = now;
  flags = record {
    entry = false;
    selfloop = false;
    blocked = false;
    transition = false;
    pushed = false;
    popped = false;
    stop = false;
    input = false;
  };
}
