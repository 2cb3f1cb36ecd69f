-- ===== src/Sync/Semaphore/Wakeups.antt =====
-- include/libzth/sync.h: who is woken by a Semaphore. While all ask for one unit at a time, no
-- wakeup is lost; a fiber that asks for more may lose one.
use zth.Sync.Semaphore.Units.{add_count_lem}
use zth.Base.{
  All, ◌≢◌, ℕ, ◌-◌, ◌≤◌, ◌<◌, ◌≡◌, ◌⊎◌, refl, ap, true, false, ◌||◌, List, [], ◌∷◌, arith, ltb,
  Bool-cases, List-cases, inl, inr,
}
use zth.Sync.Queue.{Woken, update, update_all, enqueue, unblock_first, unblock_all, count-enqueue}
use zth.Sync.Queue
use zth.Sync.Semaphore.{
  Semaphore, acquired, blocks, count_max, wake, take, acquire, add_count, wake_waiting, release,
}
use zth.Sync.Semaphore.System.{
  System, Place, outside, parked, woken, Event, acquires, retries, releases, start, step, run,
  finish, give, is_at, is_at-eq,
}

-- A fiber is in the queue once if it is parked, and else not.
abbrev queued : Place → ℕ
queued parked = 1
queued _ = 0

record Facts (sem : Semaphore) (place : ℕ → Place) (need : ℕ → ℕ) : Type 0 where
  single : sem.wake_all ≡ false
  needs : (i : ℕ) → (place i ≡ outside) ⊎ (need i ≡ 1)
  fits : (i : ℕ) → Queue.count i sem.queue ≡ queued (place i)

-- If there are units, nobody is queued or somebody has been woken.
abbrev Awake : Semaphore → (ℕ → Place) → Type 0
Awake sem place = (sem.count ≡ 0) ⊎ ((sem.queue ≡ []) ⊎ ((i : ℕ) × (place i ≡ woken)))

record Inv (sem : Semaphore) (place : ℕ → Place) (need : ℕ → ℕ) : Type 0 where
  facts : Facts sem place need
  awake : Awake sem place

wake-Inv :
    (sem : Semaphore) (place : ℕ → Place) (need : ℕ → ℕ)
    → Facts sem place need
    → Inv
        (wake sem (unblock_first sem.queue)).0
        (update_all place (wake sem (unblock_first sem.queue)).1 woken)
        need
unfolding unblock_first Queue.count
wake-Inv sem place need f = elim (List-cases sem.queue) [
  | inl e ↦ rw e (record {
    facts = record {
      single = f.single;
      needs = f.needs;
      fits = λ i. ground (arith, f.fits i, ap (Queue.count i) e);
    };
    awake = inr (inl refl);
  })
  | inr (x, q, e) ↦ rw e (record {
    facts = record {
      single = f.single;
      needs = λ i. ground (arith, f.needs i, f.fits x, ap (Queue.count x) e);
      fits = λ i. ground (arith, f.fits i, f.fits x, ap (Queue.count i) e, ap (Queue.count x) e);
    };
    awake = inr (inr (x, ground arith));
  })
]

-- Another count leaves the facts alone.
counted :
    (sem : Semaphore) (place : ℕ → Place) (need : ℕ → ℕ) (c : ℕ)
    → Facts sem place need
    → Facts (record sem { count = c }) place need
counted sem place need c f = record { single = f.single; needs = f.needs; fits = f.fits }

take_more :
    (n : ℕ) (s : Semaphore)
    → s.wake_all ≡ false
    → ltb 0 (s.count - n) ≡ true
    → take n s ≡ wake (record s { count = s.count - n }) (unblock_first s.queue)
unfolding take
take_more n s e h = ground arith

take_last :
    (n : ℕ) (s : Semaphore)
    → ltb 0 (s.count - n) ≡ false
    → take n s ≡ (record s { count = s.count - n }, [])
unfolding take
take_last n s h = ground arith

take-Inv :
    (sem : Semaphore) (place : ℕ → Place) (need : ℕ → ℕ)
    → Facts sem place need
    → Inv (take 1 sem).0 (update_all place (take 1 sem).1 woken) need
take-Inv sem place need f = elim (Bool-cases (ltb 0 (sem.count - 1))) [
  | inl e ↦
      rw (take_more 1 sem f.single e)
        (wake-Inv _ place need (counted sem place need (sem.count - 1) f))
  | inr e ↦
      rw (take_last 1 sem e)
        (record { facts = counted sem place need (sem.count - 1) f; awake = inl (ground arith) })
]

acquire_blocks :
    (i n : ℕ) (s : Semaphore)
    → ltb s.count n ≡ true
    → acquire i n s
      ≡ (blocks, record s { wake_all = ltb 1 n || s.wake_all; queue = enqueue i s.queue }, [])
unfolding acquire
acquire_blocks i n s h = ground arith

acquire_takes :
    (i n : ℕ) (s : Semaphore)
    → ltb s.count n ≡ false
    → acquire i n s ≡ (acquired, (take n s).0, (take n s).1)
unfolding acquire
acquire_takes i n s h = ground arith

finish-Inv :
    (i : ℕ) (s : System)
    → Facts s.sem s.place s.need
    → (s.place i ≡ outside) ⊎ (s.place i ≡ woken)
    → let t = finish i 1 s (acquire i 1 s.sem) in Inv t.sem t.place t.need
finish-Inv i s f h = elim (Bool-cases (ltb s.sem.count 1)) [
  | inl e ↦ rw (acquire_blocks i 1 s.sem e) (record {
    facts = record {
      single = f.single;
      needs = λ a. ground (arith, f.needs a);
      fits = λ a. ground (arith, f.fits a, count-enqueue a i s.sem.queue);
    };
    awake = inl (ground arith);
  })
  | inr e ↦ rw (acquire_takes i 1 s.sem e) (
      take-Inv s.sem (update s.place i outside) s.need (record {
        single = f.single;
        needs = λ a. ground (arith, f.needs a);
        fits = λ a. ground (arith, f.fits a);
      }))
]

release_wakes :
    (n : ℕ) (s : Semaphore)
    → s.wake_all ≡ false
    → ltb 0 (add_count s.count n) ≡ true
    → release n s ≡ wake (record s { count = add_count s.count n }) (unblock_first s.queue)
unfolding release wake_waiting
release_wakes n s e h = ground arith

release_none :
    (n : ℕ) (s : Semaphore)
    → ltb 0 (add_count s.count n) ≡ false
    → release n s ≡ (record s { count = add_count s.count n }, [])
unfolding release
release_none n s h = ground arith

give-Inv :
    (n : ℕ) (s : System)
    → Facts s.sem s.place s.need
    → let t = give n s (release n s.sem) in Inv t.sem t.place t.need
give-Inv n s f = elim (Bool-cases (ltb 0 (add_count s.sem.count n))) [
  | inl e ↦
      rw (release_wakes n s.sem f.single e)
        (wake-Inv _ s.place s.need (counted s.sem s.place s.need (add_count s.sem.count n) f))
  | inr e ↦ rw (release_none n s.sem e) (record {
    facts = counted s.sem s.place s.need (add_count s.sem.count n) f;
    awake = inl (ground arith);
  })
]

-- All that is asked for is one unit.
abbrev pub IsUnit : Event → Type 0
IsUnit (acquires i n) = n ≡ 1
IsUnit (retries i) = Unit
IsUnit (releases n) = Unit

step-Inv :
    (s : System) (e : Event)
    → IsUnit e
    → Inv s.sem s.place s.need
    → Inv (step s e).sem (step s e).place (step s e).need
unfolding step
step-Inv s (acquires i n) u v = elim (Bool-cases (is_at (s.place i) outside)) [
  | inl h ↦ rw (h, u) (finish-Inv i s v.facts (inl (is_at-eq _ _ h)))
  | inr h ↦ rw h v
]
step-Inv s (retries i) u v = elim (Bool-cases (is_at (s.place i) woken)) [
  | inl h ↦
      rw (h, needs_one (is_at-eq _ _ h) (v.facts.needs i))
        (finish-Inv i s v.facts (inr (is_at-eq _ _ h)))
  | inr h ↦ rw h v
]
  where
    needs_one : s.place i ≡ woken → (s.place i ≡ outside) ⊎ (s.need i ≡ 1) → s.need i ≡ 1
    needs_one w h = ground arith
step-Inv s (releases n) u v = give-Inv n s v.facts

run-Inv :
    (s : System) (es : List Event)
    → All IsUnit es
    → Inv s.sem s.place s.need
    → Inv (run s es).sem (run s es).place (run s es).need
unfolding run
run-Inv s [] u v = v
run-Inv s (e ∷ es) u v = run-Inv (step s e) es u.1 (step-Inv s e u.0 v)

start-Inv : (n : ℕ) → Inv (start n).sem (start n).place (start n).need
unfolding Queue.count
start-Inv n = record {
  facts = record { single = refl; needs = λ i. inl refl; fits = λ i. refl };
  awake = inr (inl refl);
}

-- After any history in which all ask for one unit at a time, if a fiber is queued, there is no
-- unit left, or some fiber has been woken to take one.
pub units_wake_next :
    (n : ℕ) (es : List Event) (i : ℕ)
    → All IsUnit es
    → (run (start n) es).place i ≡ parked
    → ((run (start n) es).sem.count ≡ 0) ⊎ ((j : ℕ) × ((run (start n) es).place j ≡ woken))
units_wake_next n es i u p = elim v.awake [
  | inl z ↦ inl z
  | inr (inl empty) ↦ absurd (nobody empty)
  | inr (inr w) ↦ inr w
]
  where
    v : Inv (run (start n) es).sem (run (start n) es).place (run (start n) es).need
    v = run-Inv (start n) es u (start-Inv n)

    nobody : (run (start n) es).sem.queue ≡ [] → ⊥
    nobody empty = unfold Queue.count in ground (arith, v.facts.fits i, ap (Queue.count i) empty)

-- Two fibers wait for one unit each, and there is none.
abbrev pub two_waiting : ℕ → ℕ → System
two_waiting x y = record (start 0) {
  sem = record { count = 0; wake_all = false; queue = x ∷ y ∷ [] };
  place = update (update (λ _. outside) x parked) y parked;
  need = λ _. 1;
}

-- Of two fibers that are queued for one unit each, release(n) with n at least 2 wakes the first
-- only, and counts on it to wake the second. If another fiber asks for more than n units before
-- the first goes on, the second stays in the queue, with n - 1 units there to take and no fiber
-- woken.
pub lost_wakeup :
    (x y f n m i : ℕ)
    → x ≢ y
    → f ≢ x
    → f ≢ y
    → 2 ≤ n
    → n ≤ count_max
    → n < m
    → let s = run (two_waiting x y) (releases n ∷ acquires f m ∷ retries x ∷ []) in
      (s.sem.count ≡ n - 1) × (s.place y ≡ parked) × (s.need y ≡ 1) × (s.place i ≢ woken)
unfolding run step release wake_waiting unblock_first acquire take
lost_wakeup x y f n m i a b c d e g = ground (arith, add_count_lem 0 n)
