-- ===== src/Sync/Gate/Barrier.antt =====
-- include/libzth/sync.h: a Gate is a barrier for as many fibers as its count.
use zth.Base.{
  ℕ, ◌+◌, ◌<◌, ◌≡◌, Bool, true, false, List, [], ◌∷◌, ◌++◌, arith, length, append_assoc, append-nil,
  ◌∙◌,
}
use zth.Sync.Queue.{enqueue, unblock_all_lem}
use zth.Sync.Gate.{Gate, pass, wait}

-- The gate, and the fibers woken so far, after some fibers have come, one after the other.
pub wait_each : List ℕ → Gate × List ℕ → Gate × List ℕ
wait_each [] s = s
wait_each (f ∷ fs) (g, woken) = wait_each fs ((wait f g).1, woken ++ (wait f g).2)

wait_blocks :
    (f : ℕ) (g : Gate)
    → g.current + 1 < g.count
    → wait f g ≡ (true, record g { current = g.current + 1; queue = enqueue f g.queue }, [])
unfolding wait pass
wait_blocks f g h = ground arith

wait_opens :
    (f : ℕ) (g : Gate)
    → g.current + 1 ≡ g.count
    → wait f g ≡ (false, record g { current = 0; queue = [] }, g.queue)
unfolding wait pass
wait_opens f g h = rw (unblock_all_lem g.queue) (ground arith)

gather :
    (fs woken : List ℕ) (g : Gate)
    → g.current + length fs < g.count
    → wait_each fs (g, woken)
      ≡ (record g { current = g.current + length fs; queue = g.queue ++ fs }, woken)
unfolding wait_each
gather [] woken g h = rw append-nil (ground arith)
gather (f ∷ fs) woken g h =
    rw (wait_blocks f g (omega arith), append-nil)
      (gather fs woken (record g { current = g.current + 1; queue = enqueue f g.queue })
          (omega arith)
        ∙ rw append_assoc (ground arith))

-- All but the last fiber that an unused gate with an empty queue waits for block, and wake
-- nobody. The last one passes, wakes all the others in the order in which they came, and leaves
-- the gate as it was.
pub opens_for_last :
    (fs : List ℕ) (f : ℕ) (g : Gate)
    → g.current ≡ 0
    → g.queue ≡ []
    → length fs + 1 ≡ g.count
    → (wait_each fs (g, []) ≡ (record g { current = length fs; queue = fs }, []))
      × (wait f (wait_each fs (g, [])).0 ≡ (false, g, fs))
opens_for_last fs f g c q n = (gathered, rw gathered (wait_opens f _ n ∙ unused))
  where
    gathered : wait_each fs (g, []) ≡ (record g { current = length fs; queue = fs }, [])
    gathered = gather fs [] g (omega arith) ∙ ground (arith, c, q)

    unused :
        ◌≡◌ {A = Bool × Gate × List ℕ}
          (false, record g { current = 0; queue = [] }, fs)
          (false, g, fs)
    unused = ground arith
