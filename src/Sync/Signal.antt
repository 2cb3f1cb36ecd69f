-- ===== src/Sync/Signal.antt =====
-- include/libzth/sync.h: class Signal.
pub mod History
pub mod Wakeups
mod Tests
use zth.Base.{ℕ, ◌≡◌, Bool, true, false, ◌&&◌, ◌||◌, not, List, [], ◌∷◌, ◌++◌, if◌then◌else◌}
use zth.Base.Int.{ℤ, pos, negsuc, ◌+ℤ◌, ◌-ℤ◌, ltb_ℤ, leb_ℤ, eqb_ℤ}
use zth.Time.Stamp.{Timestamp}
use zth.Time.Stamp
use zth.Sync.Queue.{enqueue, unblock, unblock_first, unblock_all, Woken}

-- m_signalled, and the queue of Synchronizer<1>. m_signalled is an int, here without a bound.
pub record Signal : Type 0 where
  pub signalled : ℤ
  pub queue : List ℕ

-- How the first piece of a wait ends: the fiber blocks, yields, or goes on at once.
pub data Pause : Type 0 where
  blocks yields continues : Pause

-- wait() up to block() or yield().
unfoldable pub wait : ℕ → Signal → Pause × Signal
wait f s =
    if eqb_ℤ s.signalled (pos 0)
    then (blocks, record s { queue = enqueue f s.queue })
    else (yields, s)

-- wait() when the fiber runs again.
unfoldable pub wait_end : Signal → Signal
wait_end s = if ltb_ℤ (pos 0) s.signalled then record s { signalled = s.signalled -ℤ pos 1 } else s

-- wait(Timestamp) up to blockUntil() or yield(): blockUntil() returns true at once if the time has
-- come.
unfoldable pub wait_until : ℕ → Timestamp → Timestamp → Signal → Pause × Signal
wait_until f timeout now s =
    if eqb_ℤ s.signalled (pos 0)
    then (if Stamp.le timeout now
        then (continues, s)
        else (blocks, record s { queue = enqueue f s.queue }))
    else (yields, s)

-- wait(Timestamp) when the fiber goes on, given whether its alarm rang, and what it returns.
unfoldable pub wait_until_end : Bool → Signal → Bool × Signal
wait_until_end rang s = if rang then (false, s) else (true, wait_end s)

-- The alarm of a wait(Timestamp): AlarmClock::poll() after its time.
unfoldable pub ring : ℕ → Signal → Signal × List ℕ
ring f s = let w = (unblock f s.queue).1 in (record s { queue = w.queue }, w.fibers)

-- What signal() does to m_signalled if it woke no fiber.
unfoldable pub store : Bool → Bool → ℤ → ℤ
store queue every n =
    if queue && leb_ℤ (pos 0) n then (if eqb_ℤ n (pos 0) || every then n +ℤ pos 1 else n) else n

-- signal(queue, queueEveryTime), and the fibers that it wakes.
unfoldable pub signal : Bool → Bool → Signal → Signal × List ℕ
signal queue every s = elim s.queue [
  | [] ↦ (record s { signalled = store queue every s.signalled }, [])
  | _ ∷ _ ↦ let w = unblock_first s.queue in (record s { queue = w.queue }, w.fibers)
]

unfoldable pub signal_all : Bool → Signal → Signal × List ℕ
signal_all queue s =
    let w = unblock_all s.queue in
    (record { signalled = if queue then negsuc 0 else s.signalled; queue = w.queue }, w.fibers)

unfoldable pub reset : Signal → Signal
reset s = record s { signalled = pos 0 }
