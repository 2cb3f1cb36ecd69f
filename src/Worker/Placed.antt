-- ===== src/Worker/Placed.antt =====
-- include/libzth/worker.h: the queues of a worker through any series of suspend() and resume().
use zth.Base.{ℕ, ◌+◌, ◌≡◌, ◌≢◌, ◌⊎◌, true, List, [], ◌∷◌}
use zth.Fiber.{Fiber, State, suspended, waiting}
use zth.Fiber
use zth.Sync.Queue.{contains, count}
use zth.Worker.{Worker, MayAdd, store, release, suspend, resume}
use zth.Worker.Queues.{Suspendable}

pub data Call : Type 0 where
  suspends : ℕ → Call
  resumes : ℕ → Call

abbrev pub apply : Call → Worker → Worker
apply (suspends f) w = (suspend f w).1
apply (resumes f) w = resume f w

abbrev pub run : List Call → Worker → Worker
run [] w = w
run (c ∷ cs) w = run cs (apply c w)

-- A fiber that is suspended is new, ready or running, and in the run queue. One that is resumed is
-- not suspended, or it is in the suspended queue and is to be neither suspended nor waiting then.
abbrev pub Fits : Call → Worker → Type 0
Fits (suspends f) w = Suspendable (w.fibers f).state × (contains f w.runnable ≡ true)
Fits (resumes f) w =
    ((w.fibers f).state ≢ suspended)
    ⊎ ((contains f w.suspended ≡ true)
        × ((w.fibers f).state_next ≢ suspended)
        × ((w.fibers f).state_next ≢ waiting))

abbrev pub AllFit : List Call → Worker → Type 0
AllFit [] w = Unit
AllFit (c ∷ cs) w = Fits c w × AllFit cs (apply c w)

-- How often a fiber is in a queue.
abbrev pub places : Worker → ℕ → ℕ
places w g = count g w.runnable + count g w.suspended

-- The add() of a call, if it makes one, is allowed.
abbrev pub Adds : Call → Worker → Type 0
Adds (suspends f) w =
    MayAdd f (record (release f w) { fibers = store w.fibers f (Fiber.suspend (w.fibers f)) })
Adds (resumes f) w =
    ((w.fibers f).state ≢ suspended)
    ⊎ MayAdd f (record (release f w) { fibers = store w.fibers f (Fiber.resume (w.fibers f)) })

abbrev pub AllAdd : List Call → Worker → Type 0
AllAdd [] w = Unit
AllAdd (c ∷ cs) w = Adds c w × AllAdd cs (apply c w)
