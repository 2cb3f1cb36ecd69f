-- ===== src/Sync/Semaphore/Tests.antt =====
-- Runs of a Semaphore, and the theorems about it at concrete histories.
use zth.Base.{ℕ, ◌+◌, ◌-◌, ◌≡◌, ◌≢◌, ◌⊎◌, refl, List, [], ◌∷◌, arith}
use zth.Sync.Semaphore.{acquire}
use zth.Sync.Semaphore.System.{Event, parked, woken, acquires, retries, releases, start, run, step}
use zth.Sync.Semaphore.Units.{total, units_conserved}
use zth.Sync.Semaphore.Wakeups.{units_wake_next, two_waiting, lost_wakeup}

abbrev history : List Event
history = acquires 1 1 ∷ acquires 2 1 ∷ releases 1 ∷ retries 1 ∷ releases 2 ∷ []

units_conserved_example :
    (run (start 0) history).sem.count + (run (start 0) history).taken ≡ 0 + total history
units_conserved_example = units_conserved 0 history (omega arith)

abbrev waiting_two : List Event
waiting_two = acquires 1 1 ∷ acquires 2 1 ∷ []

units_wake_next_example :
    ((run (start 0) waiting_two).sem.count ≡ 0)
    ⊎ ((j : ℕ) × ((run (start 0) waiting_two).place j ≡ woken))
unfolding run step acquire
units_wake_next_example = units_wake_next 0 waiting_two 2 (refl, (refl, tt)) refl

lost_wakeup_example :
    let s = run (two_waiting 1 2) (releases 2 ∷ acquires 3 3 ∷ retries 1 ∷ []) in
    (s.sem.count ≡ 2 - 1) × (s.place 2 ≡ parked) × (s.need 2 ≡ 1) × (s.place 7 ≢ woken)
lost_wakeup_example =
    lost_wakeup 1 2 3 2 3 7 (omega arith) (omega arith) (omega arith) (omega arith) (omega arith)
      (omega arith)
