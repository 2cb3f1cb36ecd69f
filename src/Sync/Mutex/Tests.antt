-- ===== src/Sync/Mutex/Tests.antt =====
-- Runs of a Mutex, and the theorems about it at concrete histories.
use zth.Base.{ℕ, ◌≡◌, ◌≢◌, ◌⊎◌, refl, true, false, List, [], ◌∷◌}
use zth.Base.Int.{pos}
use zth.Time.Stamp.{Timestamp}
use zth.Time.Stamp
use zth.Sync.Queue.{unblock_first}
use zth.Sync.Mutex.{Mutex, spins, lock, unlock, trylock, trylock_until, trylock_loop}
use zth.Sync.Mutex.System.{
  Event, holding, locks, retries, tries, tries_until, unlocks, start, run, step,
}
use zth.Sync.Mutex.Wakeups.{is_awake, lock_wakes_next}
use zth.Sync.Mutex.Safety.{mutual_exclusion, trylock_spins}

abbrev later : Timestamp
later = record { sec = pos 5; nsec = pos 0 }

-- Fiber 2 waits for fiber 1, fiber 3 slips in, and 2 is queued again.
abbrev history : List Event
history = locks 1 ∷ locks 2 ∷ unlocks 1 ∷ tries 3 ∷ retries 2 ∷ []

history_queue : (run start history).mutex ≡ record { locked = true; queue = 2 ∷ [] }
unfolding run step lock unlock trylock unblock_first
history_queue = refl

mutual_exclusion_example :
    (((run start history).mutex.locked ≡ false) × ((j : ℕ) → (run start history).place j ≢ holding))
    ⊎ (((run start history).mutex.locked ≡ true)
        × ((i : ℕ) × ((run start history).place i ≡ holding)
            × ((j : ℕ) → (j ≡ i) ⊎ ((run start history).place j ≢ holding))))
unfolding step lock unlock trylock unblock_first
mutual_exclusion_example = mutual_exclusion history (tt, (tt, (refl, (tt, (tt, tt)))))

-- Fiber 1 locks, fibers 2 and 3 are queued, and fiber 9 unlocks.
abbrev by_another : List Event
by_another = locks 1 ∷ locks 2 ∷ tries_until 3 later Stamp.null ∷ unlocks 9 ∷ []

lock_wakes_next_example :
    ((run start by_another).mutex.locked ≡ true)
    ⊎ ((j : ℕ) × (is_awake ((run start by_another).place j) ≡ true))
unfolding run step lock unlock trylock_until Stamp.le unblock_first
lock_wakes_next_example = lock_wakes_next by_another 3 refl

abbrev taken : Mutex
taken = record { locked = true; queue = [] }

trylock_spins_example :
    trylock_loop 4 Stamp.null (Stamp.null ∷ Stamp.null ∷ []) taken ≡ (spins, taken)
unfolding Stamp.le
trylock_spins_example =
    trylock_spins 4 Stamp.null (Stamp.null ∷ Stamp.null ∷ []) taken refl (refl, (refl, tt))
