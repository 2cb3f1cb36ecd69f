-- ===== src/Sync/Api/Tests.antt =====
-- The theorem about zth_sem_trywait() at a semaphore of two units that a fiber waits for.
use zth.Base.{ℕ, ◌+◌, ◌≡◌, ◌⊎◌, inl, inr, some, List, [], ◌∷◌, false}
use zth.Fiber.{eagain}
use zth.Sync.Semaphore.{Semaphore, acquired}
use zth.Sync.Api.{sem_trywait}
use zth.Sync.Api.Trywait.{trywait_decides}

abbrev two : Semaphore
two = record { count = 2; wake_all = false; queue = 7 ∷ [] }

trywait_decides_example :
    ((two.count ≡ 0) × (sem_trywait 3 (some (some two)) ≡ (inr (inl eagain), some (some two))))
    ⊎ ((fs : List ℕ) × (left : Semaphore) × (sem_trywait 3 (some (some two))
          ≡ (inr (inr (acquired, fs)), some (some left)))
        × (left.count + 1 ≡ two.count))
trywait_decides_example = trywait_decides 3 two
