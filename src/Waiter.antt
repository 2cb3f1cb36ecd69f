-- ===== src/Waiter.antt =====
-- src/waiter.cpp and include/libzth/waiter.h: class Waiter, the waitables of a worker in the order
-- of their timeouts, and the fiber that wakes them. A waitable is a number. The list of them is the
-- sorted sequence that SortedList/Refine.antt shows a SortedList to be. poll() of a waitable is an
-- argument, as it is virtual: its result, and the timeouts after it.
pub mod Poll
pub mod Due
pub mod Timed
pub mod Periodic
mod Tests
use zth.Base.{
  ℕ, zero, suc, ◌+◌, Bool, true, false, not, ◌&&◌, ◌||◌, Option, none, some, List, [], ◌∷◌, ◌++◌,
  if◌then◌else◌, ◌==◌,
}
use zth.Time.Stamp.{Timestamp}
use zth.Time.Stamp
use zth.Fiber.{Fiber, running, is_state, nap, Env}
use zth.Fiber
use zth.Sync.Queue.{contains, erase}
use zth.SortedList.{goes_left}
use zth.SortedList.Insert.{insert_sorted}
use zth.Worker.{Worker, Outcome, store, add, release, resume, schedule, yield, returns}
use zth.Worker

-- m_worker, m_waiting, the fiber of this Runnable, and the timeouts and fibers of the waitables.
pub record Waiter : Type 0 where
  pub worker : Worker
  pub waiting : List ℕ
  pub self : ℕ
  pub timeout : ℕ → Timestamp
  pub owner : ℕ → ℕ

abbrev pub Poll : Type 0
Poll = ℕ → Timestamp → (ℕ → Timestamp) → Bool × (ℕ → Timestamp)

-- operator< of TimedWaitable.
abbrev pub sooner : (ℕ → Timestamp) → ℕ → ℕ → Bool
sooner timeout x y = Stamp.is_before (timeout x) (timeout y)

abbrev pub set_owner : (ℕ → ℕ) → ℕ → ℕ → ℕ → ℕ
set_owner owner x f y = if x == y then f else owner y

-- wakeup() of the waiter's own fiber.
unfoldable pub wakeup_self : Waiter → Waiter
wakeup_self w = if w.self == 0 then w else record w { worker = resume w.self w.worker }

-- scheduleTask()
unfoldable pub schedule_task : ℕ → Waiter → Waiter
unfolding wakeup_self insert_sorted
schedule_task x w =
    wakeup_self (record w { waiting = insert_sorted (sooner w.timeout) x w.waiting })

-- unscheduleTask()
unfoldable pub unschedule_task : ℕ → Waiter → Waiter
unfolding contains erase
unschedule_task x w = if contains x w.waiting then record w { waiting = erase x w.waiting } else w

-- A fiber is woken and goes to the front of the run queue.
unfoldable pub wake_fiber : ℕ → Worker → Worker
unfolding add Fiber.wakeup
wake_fiber f k = add true f (record k { fibers = store k.fibers f (Fiber.wakeup (k.fibers f)) })

-- wakeup(TimedWaitable&)
unfoldable pub wakeup : ℕ → Waiter → Waiter
unfolding contains erase wake_fiber
wakeup x w =
    if contains x w.waiting
    then (let off = record w { waiting = erase x w.waiting } in
        if w.owner x == 0
        then off
        else record off { worker = wake_fiber (w.owner x) w.worker; owner = set_owner w.owner x 0 })
    else w

-- How wait() goes on: it returns at once, or it calls yield() or schedule().
pub data Going : Type 0 where
  comes_back yields reschedules : Going

-- wait() of the current fiber.
unfoldable pub wait : Poll → ℕ → Timestamp → Waiter → Going × Waiter
unfolding wakeup_self insert_sorted release nap
wait poll x now w =
    let f = w.worker.current in
    let (done, timeout) = poll x now w.timeout in
    let polled = record w { timeout = timeout } in
    let asleep = store w.worker.fibers f (nap (timeout x) (w.worker.fibers f)) in
    if f == 0 || not (is_state (w.worker.fibers f).state running)
    then (comes_back, w)
    else if done
    then (yields, polled)
    else (
      reschedules,
      wakeup_self (record polled {
        owner = set_owner w.owner x f;
        worker = release f (record w.worker { fibers = asleep });
        waiting = insert_sorted (sooner timeout) x w.waiting;
      }),
    )

-- What the loop over what is due does with the first waitable, which is x. The nap() of a debug
-- build there is left out; it changes the end of the sleep that is shown of the fiber.
unfoldable pub due_one : Poll → Timestamp → ℕ → List ℕ → Waiter → Waiter
unfolding insert_sorted wake_fiber
due_one poll now x rest w =
    let (done, timeout) = poll x now w.timeout in
    let off = record w { timeout = timeout; waiting = rest } in
    if not done
    then record off { waiting = insert_sorted (sooner timeout) x rest }
    else if w.owner x == 0
    then off
    else record off { worker = wake_fiber (w.owner x) w.worker }

-- That loop in entry(), with fuel for its rounds; `none` means that it ran out.
unfoldable pub run_due : ℕ → Poll → Timestamp → Waiter → Option Waiter
unfolding due_one
run_due zero poll now w = none
run_due (suc fuel) poll now w = elim w.waiting [
  | [] ↦ some w
  | x ∷ rest ↦
      if Stamp.is_before (w.timeout x) now
      then run_due fuel poll now (due_one poll now x rest w)
      else some w
]

-- `end` in entry(): when a sleep has to end, if it has to.
unfoldable pub sleep_end : Waiter → Option Timestamp
sleep_end w =
    let first = elim w.waiting as (λ _. Option Timestamp) [
      | [] ↦ none
      | x ∷ _ ↦ some (w.timeout x)
    ] in
    let run_end = w.worker.run_end in
    if Stamp.is_null run_end then first else elim first [
      | none ↦ some run_end
      | some end ↦ if Stamp.gt end run_end then some run_end else some end
    ]
