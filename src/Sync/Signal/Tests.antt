-- ===== src/Sync/Signal/Tests.antt =====
-- The theorems about a Signal at concrete histories.
use zth.Base.{◌≡◌, refl, true, false, List, [], ◌∷◌, arith}
use zth.Base.Int.{pos, ◌+ℤ◌, ◌-ℤ◌}
use zth.Sync.Queue.{contains}
use zth.Sync.Signal.{wait, wait_end, signal, store}
use zth.Sync.Signal.History.{Event, waits, ends, signals, rings, start, run, step, all_woken}
use zth.Sync.Signal.Wakeups.{signals_wake}

-- A signal is stored and taken, and then 2, 3 and 4 wait.
abbrev history : List Event
history = signals true false ∷ waits 1 ∷ ends ∷ waits 2 ∷ waits 3 ∷ waits 4 ∷ []

-- The alarm of 3 rings, 5 waits too, and three signals come.
abbrev calls : List Event
calls = signals true false ∷ rings 3 ∷ waits 5 ∷ signals true false ∷ signals true true ∷ []

signals_wake_example :
    ((run start history).signalled ≡ pos 0)
    × (contains 4 (all_woken (run start history) calls) ≡ true)
unfolding run step wait wait_end signal contains store ◌+ℤ◌ ◌-ℤ◌
signals_wake_example = signals_wake history calls 4 refl (omega arith)
