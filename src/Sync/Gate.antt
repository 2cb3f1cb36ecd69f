-- ===== src/Sync/Gate.antt =====
-- include/libzth/sync.h: class Gate.
pub mod Barrier
mod Tests
use zth.Base.{ℕ, ◌+◌, ◌-◌, Bool, true, false, List, [], ◌∷◌, ◌++◌, leb, if◌then◌else◌}
use zth.Sync.Queue.{enqueue, unblock_all, Woken}

-- m_count, m_current, and the queue of Synchronizer<1>.
pub record Gate : Type 0 where
  pub count : ℕ
  pub current : ℕ
  pub queue : List ℕ

-- pass(): whether this is the last that the gate waits for, and the fibers that are woken then.
unfoldable pub pass : Gate → Bool × Gate × List ℕ
pass g =
    let here = g.current + 1 in
    let w = unblock_all g.queue in
    if leb g.count here
    then (true, record g { current = here - g.count; queue = w.queue }, w.fibers)
    else (false, record g { current = here }, [])

-- wait(): whether the fiber blocks, and the fibers that it wakes otherwise.
unfoldable pub wait : ℕ → Gate → Bool × Gate × List ℕ
wait f g =
    let (last, g', fs) = pass g in
    if last then (false, g', fs) else (true, record g' { queue = enqueue f g'.queue }, [])
