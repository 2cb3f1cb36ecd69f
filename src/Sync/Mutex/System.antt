-- ===== src/Sync/Mutex/System.antt =====
-- include/libzth/sync.h: fibers that use one Mutex, in any order that the scheduler makes.
use zth.Base.{ℕ, ◌≡◌, arith, Bool, true, false, ◌||◌, List, [], ◌∷◌, if◌then◌else◌}
use zth.Time.Stamp.{Timestamp}
use zth.Sync.Queue.{update}
use zth.Sync.Mutex.{
  Mutex, Outcome, acquired, refused, blocks, spins, lock, trylock, trylock_until, trylock_again,
  ring, unlock,
}

-- Where a fiber stands: outside, in the queue or woken within lock() or trylock(Timestamp), within
-- the latter after its alarm rang, or with the mutex.
pub data Place : Type 0 where
  outside parked parked_until woken woken_until rung holding : Place

pub record System : Type 0 where
  pub mutex : Mutex
  pub place : ℕ → Place

abbrev pub start : System
start = record { mutex = record { locked = false; queue = [] }; place = λ _. outside }

-- What happens next: a fiber calls lock(), goes on within it, calls trylock(), calls
-- trylock(Timestamp), goes on within that, or calls unlock(), or its alarm is polled. The times are
-- the timeout and the clock.
pub data Event : Type 0 where
  locks retries tries unlocks rings : ℕ → Event
  tries_until retries_until : ℕ → Timestamp → Timestamp → Event

abbrev pub ended : Outcome → Place
ended acquired = holding
ended blocks = parked
ended refused = outside
ended spins = woken

abbrev pub ended_until : Outcome → Place
ended_until acquired = holding
ended_until blocks = parked_until
ended_until refused = outside
ended_until spins = woken_until

abbrev pub finish : ℕ → System → Outcome × Mutex → System
finish i s (o, m) = record { mutex = m; place = update s.place i (ended o) }

abbrev pub finish_until : ℕ → System → Outcome × Mutex → System
finish_until i s (o, m) = record { mutex = m; place = update s.place i (ended_until o) }

-- The fibers that are woken: each goes on in the call in which it was queued.
abbrev pub woken_in : Place → Place
woken_in parked_until = woken_until
woken_in _ = woken

abbrev pub wake : (ℕ → Place) → List ℕ → ℕ → Place
wake p [] = p
wake p (f ∷ fs) = wake (update p f (woken_in (p f))) fs

abbrev pub let_go : ℕ → System → Mutex × List ℕ → System
let_go i s (m, fs) = record { mutex = m; place = wake (update s.place i outside) fs }

abbrev pub alarmed : ℕ → System → Bool × Mutex → System
alarmed i s (rang, m) = record {
  mutex = m;
  place = update s.place i (if rang then rung else s.place i);
}

abbrev pub is_at : Place → Place → Bool
is_at outside outside = true
is_at parked parked = true
is_at parked_until parked_until = true
is_at woken woken = true
is_at woken_until woken_until = true
is_at rung rung = true
is_at holding holding = true
is_at _ _ = false

pub is_at-eq : (p q : Place) → is_at p q ≡ true → p ≡ q
is_at-eq outside q h = ground arith
is_at-eq parked q h = ground arith
is_at-eq parked_until q h = ground arith
is_at-eq woken q h = ground arith
is_at-eq woken_until q h = ground arith
is_at-eq rung q h = ground arith
is_at-eq holding q h = ground arith

-- Whether a fiber is within no call, with the mutex or without: each such fiber may call unlock().
abbrev pub is_free : Place → Bool
is_free outside = true
is_free holding = true
is_free _ = false

-- A fiber that is within a call does not make another: such an event changes nothing.
unfoldable pub step : System → Event → System
step s (locks i) = if is_at (s.place i) outside then finish i s (lock i s.mutex) else s
step s (retries i) = if is_at (s.place i) woken then finish i s (lock i s.mutex) else s
step s (tries i) = if is_at (s.place i) outside then finish i s (trylock s.mutex) else s
step s (tries_until i timeout now) =
    if is_at (s.place i) outside then finish_until i s (trylock_until i timeout now s.mutex) else s
step s (retries_until i timeout now) =
    let rang = is_at (s.place i) rung in
    if rang || is_at (s.place i) woken_until
    then finish_until i s (trylock_again rang i timeout now s.mutex)
    else s
step s (rings i) = if is_at (s.place i) parked_until then alarmed i s (ring i s.mutex) else s
step s (unlocks i) = if is_free (s.place i) then let_go i s (unlock s.mutex) else s

unfoldable pub run : System → List Event → System
run s [] = s
run s (e ∷ es) = run (step s e) es

-- Every unlock() is by a fiber that holds the mutex.
abbrev pub IsOwn : System → Event → Type 0
IsOwn s (unlocks i) = s.place i ≡ holding
IsOwn s _ = Unit

abbrev pub AllOwn : System → List Event → Type 0
AllOwn s [] = Unit
AllOwn s (e ∷ es) = IsOwn s e × AllOwn (step s e) es
