-- ===== src/Sync/Semaphore/System.antt =====
-- include/libzth/sync.h: fibers that use one Semaphore, in any order that the scheduler makes.
use zth.Base.{ℕ, ◌+◌, ◌≡◌, arith, Bool, true, false, List, [], ◌∷◌, if◌then◌else◌}
use zth.Sync.Queue.{update, update_all}
use zth.Sync.Semaphore.{Semaphore, Outcome, acquired, blocks, acquire, release}

-- Where a fiber stands: outside, or in acquire(), in the queue or woken.
pub data Place : Type 0 where
  outside parked woken : Place

-- `need` is what a fiber asks for in acquire(). `taken` and `given` count units, for the statements.
pub record System : Type 0 where
  pub sem : Semaphore
  pub place : ℕ → Place
  pub need : ℕ → ℕ
  pub taken : ℕ
  pub given : ℕ

-- A semaphore with this many units and no fiber in it.
abbrev pub start : ℕ → System
start n = record {
  sem = record { count = n; wake_all = false; queue = [] };
  place = λ _. outside;
  need = λ _. 0;
  taken = 0;
  given = 0;
}

-- What happens next: a fiber calls acquire(n), goes on within it, or calls release(n).
pub data Event : Type 0 where
  acquires : (fiber n : ℕ) → Event
  retries : (fiber : ℕ) → Event
  releases : (n : ℕ) → Event

abbrev pub is_at : Place → Place → Bool
is_at outside outside = true
is_at parked parked = true
is_at woken woken = true
is_at _ _ = false

pub is_at-eq : (p q : Place) → is_at p q ≡ true → p ≡ q
is_at-eq outside q h = ground arith
is_at-eq parked q h = ground arith
is_at-eq woken q h = ground arith

abbrev pub finish : ℕ → ℕ → System → Outcome × Semaphore × List ℕ → System
finish i n s (acquired, sem, fs) = record s {
  sem = sem;
  place = update_all (update s.place i outside) fs woken;
  taken = s.taken + n;
}
finish i n s (blocks, sem, fs) = record s {
  sem = sem;
  place = update_all (update s.place i parked) fs woken;
  need = update s.need i n;
}

abbrev pub give : ℕ → System → Semaphore × List ℕ → System
give n s (sem, fs) = record s {
  sem = sem;
  place = update_all s.place fs woken;
  given = s.given + n;
}

-- An event of a fiber that stands elsewhere changes nothing.
unfoldable pub step : System → Event → System
step s (acquires i n) = if is_at (s.place i) outside then finish i n s (acquire i n s.sem) else s
step s (retries i) =
    if is_at (s.place i) woken then finish i (s.need i) s (acquire i (s.need i) s.sem) else s
step s (releases n) = give n s (release n s.sem)

unfoldable pub run : System → List Event → System
run s [] = s
run s (e ∷ es) = run (step s e) es
