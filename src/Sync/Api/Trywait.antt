-- ===== src/Sync/Api/Trywait.antt =====
-- include/libzth/sync.h: zth_sem_trywait().
use zth.Base.{
  ℕ, ◌+◌, ◌≡◌, ◌⊎◌, inl, inr, ap, ◌∙◌, ◌||◌, [], arith, some, List, Bool, true, false, ltb,
  if◌then◌else◌, ◌==◌, Bool-cases,
}
use zth.Fiber.{eagain}
use zth.Sync.Semaphore.{Semaphore, acquired, blocks, acquire, take}
use zth.Sync.Semaphore
use zth.Sync.Queue.{enqueue}
use zth.Sync.Api.{Handle, Piece, taken, with_object, sem_trywait, try_taken}

try_zero : (f : ℕ) (s : Semaphore) → (s.count == 0) ≡ true → try_taken f s ≡ (inl eagain, s)
try_zero f s e = ap (λ (b : Bool). if b then (inl eagain, s) else taken f s) e

acquire_one :
    (f : ℕ) (s : Semaphore)
    → ltb s.count 1 ≡ false
    → acquire f 1 s ≡ (acquired, (take 1 s).0, (take 1 s).1)
unfolding acquire
acquire_one f s e =
    ap
      (λ (b : Bool).
        if b
        then (blocks, record s { wake_all = ltb 1 1 || s.wake_all; queue = enqueue f s.queue }, [])
        else (acquired, (take 1 s).0, (take 1 s).1))
      e

try_more :
    (f : ℕ) (s : Semaphore)
    → (s.count == 0) ≡ false
    → try_taken f s ≡ (inr (acquired, (take 1 s).1), (take 1 s).0)
try_more f s e =
    ap (λ (b : Bool). if b then (inl eagain, s) else taken f s) e
    ∙ ap (λ (r : Semaphore.Outcome × Semaphore × List ℕ). (inr (r.0, r.2), r.1))
        (acquire_one f s (ground (arith, e)))

take_left : (s : Semaphore) → (s.count == 0) ≡ false → (take 1 s).0.count + 1 ≡ s.count
unfolding take
take_left s e = ground (arith, e)

-- zth_sem_trywait() on a semaphore never blocks: at a count of 0 it gives EAGAIN and changes
-- nothing, and otherwise it takes one unit.
pub trywait_decides :
    (f : ℕ) (s : Semaphore)
    → ((s.count ≡ 0) × (sem_trywait f (some (some s)) ≡ (inr (inl eagain), some (some s))))
      ⊎ ((fs : List ℕ) × (left : Semaphore) × (sem_trywait f (some (some s))
            ≡ (inr (inr (acquired, fs)), some (some left)))
          × (left.count + 1 ≡ s.count))
unfolding with_object
trywait_decides f s =
    let as_reply : Piece × Semaphore → (ℕ ⊎ Piece) × Handle Semaphore =
      λ r. (inr r.0, some (some r.1)) in
    elim (Bool-cases (s.count == 0)) [
      | inl e ↦ inl (ground (arith, e), ap as_reply (try_zero f s e))
      | inr e ↦ inr ((take 1 s).1, (take 1 s).0, ap as_reply (try_more f s e), take_left s e)
    ]
