-- ===== src/Worker.antt =====
-- include/libzth/worker.h: class Worker, the queues of a worker and the switch to the next fiber. A
-- queue is the sequence of its fibers; List.antt is about its representation. A fiber is the number
-- by which `fibers` finds it, and 0 is no fiber. Debug prints, performance events and
-- sigchld_check() are left out.
pub mod Schedule
pub mod Queues
pub mod Placed
mod Tests
use zth.Base.{
  ℕ, zero, suc, ◌≢◌, ◌+◌, ◌-◌, Bool, true, false, not, ◌&&◌, Option, none, some, List, [], ◌∷◌,
  ◌++◌, length, if◌then◌else◌, ◌==◌,
}
use zth.Time.Stamp.{Timestamp}
use zth.Time.Stamp
use zth.Fiber.{
  Fiber, State, Env, Ran, new, running, ready, waiting, suspended, is_state, eperm, eagain,
}
use zth.Fiber
use zth.Fiber.{allow_yield}
use zth.Sync.Queue.{erase}
use zth.List.Cycle.{Away}

-- The fibers, m_workerFiber, m_currentFiber, the two queues, m_end and m_disableContextSwitch.
pub record Worker : Type 0 where
  pub fibers : ℕ → Fiber
  pub home : ℕ
  pub current : ℕ
  pub runnable : List ℕ
  pub suspended : List ℕ
  pub run_end : Timestamp
  pub disabled : ℕ

abbrev pub store : (ℕ → Fiber) → ℕ → Fiber → ℕ → Fiber
store fs f x g = if f == g then x else fs g

-- What zth_assert() in add() and in push_front() and push_back() of the queues asks of the caller,
-- for a fiber that is not null: it is not waiting, and it is in no queue.
abbrev pub MayAdd : ℕ → Worker → Type 0
MayAdd f w = ((w.fibers f).state ≢ waiting) × Away f w.runnable × Away f w.suspended

-- add(), for a caller that meets MayAdd: the checks of zth_assert() do not change anything.
unfoldable pub add : Bool → ℕ → Worker → Worker
add front f w =
    if is_state (w.fibers f).state suspended
    then record w { suspended = w.suspended ++ f ∷ [] }
    else if front
    then record w { runnable = f ∷ w.runnable }
    else record w { runnable = w.runnable ++ f ∷ [] }

unfoldable pub hatch : ℕ → Worker → Worker
unfolding add
hatch f w =
    let used = record (w.fibers f) { refs = suc (w.fibers f).refs } in
    add false f (record w { fibers = store w.fibers f used })

-- operator<<
unfoldable pub push : ℕ → Worker → Worker
unfolding add hatch
push f w = if is_state (w.fibers f).state new then hatch f w else add false f w

unfoldable pub context_switch_enable : Bool → Worker → Worker
context_switch_enable enable w = record w {
  disabled = if enable then w.disabled - 1 else suc w.disabled;
}

abbrev pub context_switch_enabled : Worker → Bool
context_switch_enabled w = w.disabled == 0

unfoldable pub release : ℕ → Worker → Worker
release f w =
    if is_state (w.fibers f).state suspended
    then record w { suspended = erase f w.suspended }
    else record w { runnable = erase f w.runnable }

-- rotate(*++cyclic(f)): the queue starts after f, and `seen` is what is before it.
unfoldable pub rotate_past : ℕ → List ℕ → List ℕ → List ℕ
rotate_past f seen [] = seen
rotate_past f seen (x ∷ xs) =
    if x == f then xs ++ (seen ++ x ∷ []) else rotate_past f (seen ++ x ∷ []) xs

-- How schedule() goes on: another fiber runs, with this one to return true once it runs again, or it
-- returns, or it stops the program.
pub data Outcome : Type 0 where
  switches aborts : Outcome
  returns : Bool → Outcome

-- The end of cleanup() for a fiber that is not the current one.
unfoldable pub cleanup : ℕ → Worker → Worker
cleanup f w =
    let unused = record (w.fibers f) { refs = (w.fibers f).refs - 1 } in
    record w { runnable = erase f w.runnable; fibers = store w.fibers f unused }

-- cleanup() of the current fiber has to switch to the worker's.
abbrev pub must_switch : Option (Outcome × Worker) → Option (Outcome × Worker)
must_switch none = none
must_switch (some (switches, w)) = some (switches, w)
must_switch (some (_, w)) = some (aborts, w)

-- The fiber that is next in schedule(), where one may be preferred.
abbrev pub next_fiber : ℕ → Worker → ℕ
next_fiber prefer w = if prefer == 0 then elim w.runnable [ [] ↦ w.home | x ∷ _ ↦ x ] else prefer

-- The fiber that Fiber::run() is called from.
abbrev pub prev_fiber : Worker → ℕ
prev_fiber w = if w.current == 0 then w.home else w.current

-- What schedule() does with the result of Fiber::run(): `again` is the jump back to `reschedule`,
-- and `leave` is the call of schedule() in cleanup().
unfoldable pub after_run :
    (Worker → Option (Outcome × Worker))
    → (Worker → Option (Outcome × Worker))
    → Bool
    → ℕ
    → ℕ
    → ℕ
    → Option Ran
    → Worker
    → Option (Outcome × Worker)
unfolding cleanup
after_run again leave did next from prev none w = none
after_run again leave did next from prev (some (res, self, other)) w =
    let stored = store (store w.fibers from other) next self in
    let back = record w { fibers = stored; current = prev } in
    if res == 0
    then some (switches, record w { fibers = stored })
    else if res == eagain
    then some (returns did, back)
    else if res == eperm
    then (if prev == next then must_switch (leave back) else again (cleanup next back))
    else some (aborts, back)

-- schedule() from `reschedule`, with fuel for the jumps; `none` means that it ran out. `later` is the
-- time that the call of schedule() in cleanup() reads.
unfoldable pub schedule_from :
    ℕ → Env → Timestamp → Timestamp → ℕ → Bool → Worker → Option (Outcome × Worker)
unfolding rotate_past
schedule_from zero env now later prefer did w = none
schedule_from (suc fuel) env now later prefer did w =
    let next = next_fiber prefer w in
    let turned = if next == w.home then w.runnable else rotate_past next [] w.runnable in
    after_run (λ v. schedule_from fuel env now later 0 true v)
      (λ v. schedule_from fuel env later later w.home false v) did next (prev_fiber w) w.current
      (Fiber.run env (w.fibers next) (w.fibers (prev_fiber w)) now)
      (record w { current = next; runnable = turned })

-- schedule(); see Worker/Schedule.antt for its fuel.
unfoldable pub schedule : Env → ℕ → Timestamp → Timestamp → Worker → Option (Outcome × Worker)
schedule env prefer now later w =
    let over = not (Stamp.is_null w.run_end) && Stamp.is_before w.run_end now in
    let first = if over then w.home else prefer in
    if context_switch_enabled w
    then schedule_from (length w.runnable + 2) env now later first false w
    else some (returns true, w)

-- The switch of suspend() on the state: the worker with the fiber moved, with the fiber told but not
-- moved, and as it was.
unfoldable pub suspend_in : State → Worker → Worker → Worker → Bool × Worker
suspend_in new moved told w = (false, moved)
suspend_in ready moved told w = (false, moved)
suspend_in running moved told w = (true, moved)
suspend_in waiting moved told w = (false, told)
suspend_in _ moved told w = (false, w)

-- suspend(), and whether it calls schedule() then.
unfoldable pub suspend : ℕ → Worker → Bool × Worker
unfolding add release suspend_in
suspend f w =
    let fibers = store w.fibers f (Fiber.suspend (w.fibers f)) in
    suspend_in (w.fibers f).state (add false f (record (release f w) { fibers = fibers }))
      (record w { fibers = fibers }) w

unfoldable pub resume : ℕ → Worker → Worker
unfolding add release
resume f w =
    if is_state (w.fibers f).state suspended
    then (let left = release f w in
        add false f (record left { fibers = store w.fibers f (Fiber.resume (w.fibers f)) }))
    else w

-- yield() of the current fiber; `later` is as for schedule().
unfoldable pub yield : Env → ℕ → Bool → Timestamp → Timestamp → Worker → Option (Outcome × Worker)
yield env prefer always now later w =
    if not always && not (allow_yield (w.fibers w.current) now)
    then some (returns true, w)
    else schedule env prefer now later w

unfoldable pub out_of_work : Env → Timestamp → Timestamp → Worker → Option (Outcome × Worker)
out_of_work env now later w = yield env 0 true now later w
