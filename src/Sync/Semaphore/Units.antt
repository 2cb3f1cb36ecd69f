-- ===== src/Sync/Semaphore/Units.antt =====
-- include/libzth/sync.h: the units of a Semaphore: none is lost and none is made up.
use zth.Base.{ℕ, ◌+◌, ◌-◌, ◌≤◌, ◌≡◌, List, [], ◌∷◌, arith, ltb, if◌then◌else◌, Bool-cases, inl, inr}
use zth.Sync.Semaphore.{Semaphore, count_max, take, acquire, add_count, wake_waiting, release}
use zth.Sync.Semaphore.System.{
  System, Event, acquires, retries, releases, start, step, run, finish, is_at, outside, woken,
}

count-take : (n : ℕ) (s : Semaphore) → (take n s).0.count ≡ s.count - n
unfolding take
count-take n s = ground arith

count-wake_waiting : (s : Semaphore) → (wake_waiting s).0.count ≡ s.count
unfolding wake_waiting
count-wake_waiting s = ground arith

count-release : (n : ℕ) (s : Semaphore) → (release n s).0.count ≡ add_count s.count n
unfolding release
count-release n s = ground (arith, count-wake_waiting (record s { count = add_count s.count n }))

-- A count saturates.
pub add_count_lem :
    (a n : ℕ)
    → a ≤ count_max
    → n ≤ count_max
    → add_count a n ≡ (if ltb count_max (a + n) then count_max else a + n)
unfolding add_count
add_count_lem a n h k = ground arith

-- The units that events give, all of which a count_type can hold.
abbrev pub total : List Event → ℕ
total [] = 0
total (acquires i n ∷ es) = total es
total (retries i ∷ es) = total es
total (releases n ∷ es) = n + total es

finish_units :
    (i n : ℕ) (s : System)
    → ((finish i n s (acquire i n s.sem)).sem.count + (finish i n s (acquire i n s.sem)).taken
        ≡ s.sem.count + s.taken)
      × ((finish i n s (acquire i n s.sem)).given ≡ s.given)
unfolding acquire
finish_units i n s = ground (arith, count-take n s.sem)

-- While the units fit in a count_type, the count and the units that are taken make up the units
-- that there were and that are given.
abbrev Balanced : ℕ → System → Type 0
Balanced n s = s.sem.count + s.taken ≡ n + s.given

step_units :
    (n : ℕ) (s : System) (e : Event)
    → n + s.given + total (e ∷ []) ≤ count_max
    → Balanced n s
    → Balanced n (step s e) × ((step s e).given ≡ s.given + total (e ∷ []))
unfolding step
step_units n s (acquires i k) h b = elim (Bool-cases (is_at (s.place i) outside)) [
  | inl e ↦ rw e (ground (arith, finish_units i k s))
  | inr e ↦ rw e (omega arith)
]
step_units n s (retries i) h b = elim (Bool-cases (is_at (s.place i) woken)) [
  | inl e ↦ rw e (ground (arith, finish_units i (s.need i) s))
  | inr e ↦ rw e (omega arith)
]
step_units n s (releases k) h b = ground (arith, count-release k s.sem, add_count_lem s.sem.count k)

total-cons : (e : Event) (es : List Event) → total (e ∷ es) ≡ total (e ∷ []) + total es
total-cons (acquires i n) es = omega arith
total-cons (retries i) es = omega arith
total-cons (releases n) es = omega arith

run_units :
    (n : ℕ) (s : System) (es : List Event)
    → n + s.given + total es ≤ count_max
    → Balanced n s
    → ((run s es).sem.count + (run s es).taken ≡ n + s.given + total es)
unfolding run
run_units n s [] h b = omega arith
run_units n s (e ∷ es) h b =
    let (b', g) = step_units n s e (omega (arith, total-cons e es)) b in
    omega
      (arith, g, total-cons e es, run_units n (step s e) es (omega (arith, g, total-cons e es)) b')

-- After any history of a semaphore that gives no more units than a count_type can hold, the
-- count and the units that were taken are the units at the start and those given.
pub units_conserved :
    (n : ℕ) (es : List Event)
    → n + total es ≤ count_max
    → (run (start n) es).sem.count + (run (start n) es).taken ≡ n + total es
units_conserved n es h = omega (arith, run_units n (start n) es (omega arith) (omega arith))
