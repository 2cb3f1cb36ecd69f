-- ===== src/Sync/Mutex.antt =====
-- include/libzth/sync.h: class Mutex.
pub mod System
pub mod Ends
pub mod Wakeups
pub mod Safety
mod Tests
use zth.Base.{ℕ, Bool, true, false, List, [], ◌∷◌, ◌++◌, if◌then◌else◌}
use zth.Time.Stamp.{Timestamp}
use zth.Time.Stamp
use zth.Sync.Queue.{enqueue, unblock, unblock_first, Woken}

-- m_locked, and the queue of Synchronizer<1>.
pub record Mutex : Type 0 where
  pub locked : Bool
  pub queue : List ℕ

-- How a piece of a call ends: it returns true or false, or the fiber blocks, or the loop goes round
-- without a chance for others.
pub data Outcome : Type 0 where
  acquired refused blocks spins : Outcome

-- One round of the loop of lock().
unfoldable pub lock : ℕ → Mutex → Outcome × Mutex
lock f m =
    if m.locked
    then (blocks, record m { queue = enqueue f m.queue })
    else (acquired, record m { locked = true })

unfoldable pub trylock : Mutex → Outcome × Mutex
trylock m = if m.locked then (refused, m) else (acquired, record m { locked = true })

-- One round of the loop of trylock(Timestamp): blockUntil() returns true at once if the time has
-- come, and otherwise the fiber is queued with an alarm.
unfoldable pub trylock_until : ℕ → Timestamp → Timestamp → Mutex → Outcome × Mutex
trylock_until f timeout now m =
    if m.locked
    then (if Stamp.le timeout now
        then (spins, m)
        else (blocks, record m { queue = enqueue f m.queue }))
    else (acquired, record m { locked = true })

-- The fiber of trylock(Timestamp) runs again: false if its alarm rang, and else another round.
unfoldable pub trylock_again : Bool → ℕ → Timestamp → Timestamp → Mutex → Outcome × Mutex
trylock_again rang f timeout now m = if rang then (refused, m) else trylock_until f timeout now m

-- The mutex and the fibers that are woken.
unfoldable pub unlock : Mutex → Mutex × List ℕ
unlock m = let w = unblock_first m.queue in (record { locked = false; queue = w.queue }, w.fibers)

-- The alarm of a trylock(Timestamp): AlarmClock::poll() after its time. It rang if the fiber was
-- still queued.
unfoldable pub ring : ℕ → Mutex → Bool × Mutex
unfolding unblock
ring f m = let (rang, w) = unblock f m.queue in (rang, record m { queue = w.queue })

-- The loop of trylock(Timestamp) up to the point where it blocks or ends, with the times that it
-- reads from the clock, as many as there are.
unfoldable pub trylock_loop : ℕ → Timestamp → List Timestamp → Mutex → Outcome × Mutex
trylock_loop f timeout [] m = (spins, m)
trylock_loop f timeout (now ∷ rest) m =
    let r = trylock_until f timeout now m in
    let again = trylock_loop f timeout rest r.1 in elim r.0 [ spins ↦ again | _ ↦ r ]
