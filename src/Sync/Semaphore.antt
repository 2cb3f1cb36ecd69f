-- ===== src/Sync/Semaphore.antt =====
-- include/libzth/sync.h: class Semaphore. A count is an unsigned int of 32 bits.
pub mod System
pub mod Units
pub mod Wakeups
mod Tests
use zth.Base.{
  ℕ, ◌+◌, ◌-◌, ◌%◌, ◌^◌, Bool, true, false, ◌&&◌, ◌||◌, not, List, [], ◌∷◌, ◌++◌, ltb,
  if◌then◌else◌,
}
use zth.Sync.Queue.{enqueue, unblock_first, unblock_all, Woken}

-- std::numeric_limits<count_type>::max()
abbrev pub count_max : ℕ
count_max = 2 ^ 32 - 1

-- m_count, m_unblockAll, and the queue of Synchronizer<1>.
pub record Semaphore : Type 0 where
  pub count : ℕ
  pub wake_all : Bool
  pub queue : List ℕ

-- Whether a piece of acquire() got its units or blocks.
pub data Outcome : Type 0 where
  acquired blocks : Outcome

abbrev pub wake : Semaphore → Woken → Semaphore × List ℕ
wake s w = (record s { queue = w.queue }, w.fibers)

-- After the loop of acquire(): take the units, and wake the next in line if there are more.
unfoldable pub take : ℕ → Semaphore → Semaphore × List ℕ
take n s =
    let left = record s { count = s.count - n } in
    if ltb 0 left.count && not left.wake_all
    then wake left (unblock_first left.queue)
    else (left, [])

-- acquire() by a fiber, up to the point where it blocks or ends, and the fibers that it wakes.
unfoldable pub acquire : ℕ → ℕ → Semaphore → Outcome × Semaphore × List ℕ
unfolding take
acquire f n s =
    if ltb s.count n
    then (blocks, record s { wake_all = ltb 1 n || s.wake_all; queue = enqueue f s.queue }, [])
    else (acquired, (take n s).0, (take n s).1)

-- m_count + count, saturated where it wraps around.
unfoldable pub add_count : ℕ → ℕ → ℕ
add_count a n = let sum = (a + n) % 2 ^ 32 in if ltb sum a then count_max else sum

-- The end of release(), with units left.
unfoldable pub wake_waiting : Semaphore → Semaphore × List ℕ
wake_waiting s = if not s.wake_all then wake s (unblock_first s.queue) else elim s.queue [
  | [] ↦ (record s { wake_all = false }, [])
  | _ ∷ _ ↦ wake s (unblock_all s.queue)
]

unfoldable pub release : ℕ → Semaphore → Semaphore × List ℕ
unfolding add_count wake_waiting
release n s =
    let more = record s { count = add_count s.count n } in
    if ltb 0 more.count then wake_waiting more else (more, [])
