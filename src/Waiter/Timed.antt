-- ===== src/Waiter/Timed.antt =====
-- src/waiter.cpp: what Waiter::entry() does about sleeping fibers, whose waitables are all timed.
use zth.Base.{
  ℕ, suc, ◌≡◌, ◌≢◌, inl, inr, refl, sym, ap, ◌∙◌, true, List, [], ◌∷◌, ◌++◌, some, All, Bool-cases,
  length, if◌then◌else◌, ◌==◌,
}
use zth.Time.Stamp.{Timestamp}
use zth.Time.Stamp
use zth.Fiber.{Fiber, waiting, ready}
use zth.Fiber
use zth.Waiter.{Waiter, due_one, run_due, wake_fiber}
use zth.Waiter.Poll.{Kind, timed, poll, poll_as}
use zth.Waiter.Due.{IsDue, NotDue, run_due_goes, run_due_stops, run_due_empty}
use zth.List.Cycle.{Away, Distinct}
use zth.Worker.{Worker, MayAdd, store, add}
use zth.Worker.Schedule.{same_test, other_test}

-- A fiber that waits until a wakeup makes it ready, and is in no queue.
abbrev pub Sleeps : Worker → ℕ → Type 0
Sleeps k f =
    ((k.fibers f).state ≡ waiting)
    × ((k.fibers f).state_next ≡ ready)
    × Away f k.runnable
    × Away f k.suspended

wakeup_wakes :
    (f : Fiber) → f.state ≡ waiting → f.state_next ≡ ready → (Fiber.wakeup f).state ≡ ready
unfolding Fiber.wakeup
wakeup_wakes f e n = rw (e, n) refl

-- The fibers of waitables, which may have none.
abbrev pub fibers_of : (ℕ → ℕ) → List ℕ → List ℕ
fibers_of owner [] = []
fibers_of owner (x ∷ xs) =
    let rest = fibers_of owner xs in if owner x == 0 then rest else owner x ∷ rest

-- A queue with fibers put at its front, one after the other.
abbrev pub in_front : List ℕ → List ℕ → List ℕ
in_front [] queue = queue
in_front (f ∷ fs) queue = in_front fs (f ∷ queue)

abbrev pub wake_all : List ℕ → Worker → Worker
wake_all [] k = k
wake_all (f ∷ fs) k = wake_all fs (wake_fiber f k)

abbrev pub told : ℕ → Worker → Worker
told f k = record k { fibers = store k.fibers f (Fiber.wakeup (k.fibers f)) }

-- add() is allowed at each of these wakeups.
abbrev pub AllMayAdd : List ℕ → Worker → Type 0
AllMayAdd [] k = Unit
AllMayAdd (f ∷ fs) k = MayAdd f (told f k) × AllMayAdd fs (wake_fiber f k)

-- Waking one fiber.
module _ (f : ℕ) (k : Worker) (s : Sleeps k f) where
  told_ready : ((told f k).fibers f).state ≡ ready
  told_ready = rw (same_test f) (wakeup_wakes (k.fibers f) s.0 s.1)

  wake_fiber_lem : wake_fiber f k ≡ record (told f k) { runnable = f ∷ k.runnable }
  unfolding wake_fiber add
  wake_fiber_lem = rw told_ready refl

  told-MayAdd : MayAdd f (told f k)
  told-MayAdd = ((λ e. cc (told_ready, e)), s.2, s.3)

  woken_ready : ((wake_fiber f k).fibers f).state ≡ ready
  woken_ready = rw wake_fiber_lem told_ready

  others_keep : (g : ℕ) → g ≢ f → (wake_fiber f k).fibers g ≡ k.fibers g
  others_keep g n = rw (wake_fiber_lem, other_test f g (λ e. n (sym e))) refl

  others-Sleeps : (g : ℕ) → g ≢ f → Sleeps k g → Sleeps (wake_fiber f k) g
  others-Sleeps g n h =
      rw (wake_fiber_lem, other_test f g (λ e. n (sym e))) (h.0, h.1, ((λ e. n (sym e)), h.2), h.3)

-- The others sleep on while one is woken.
rest-Sleep :
    (f : ℕ) (k : Worker)
    → Sleeps k f
    → (fs : List ℕ) → Away f fs
    → All (Sleeps k) fs
    → All (Sleeps (wake_fiber f k)) fs
rest-Sleep f k s [] a h = tt
rest-Sleep f k s (g ∷ gs) a h = (others-Sleeps f k s g a.0 h.0, rest-Sleep f k s gs a.1 h.1)

wake_all_keeps :
    (fs : List ℕ) (k : Worker) (g : ℕ)
    → All (Sleeps k) fs
    → Distinct fs
    → Away g fs
    → (wake_all fs k).fibers g ≡ k.fibers g
wake_all_keeps [] k g h d a = refl
wake_all_keeps (f ∷ fs) k g h d a =
    wake_all_keeps fs (wake_fiber f k) g (rest-Sleep f k h.0 fs d.0 h.1) d.1 a.1
    ∙ others_keep f k h.0 g (λ e. a.0 (sym e))

wake_all_runnable :
    (fs : List ℕ) (k : Worker)
    → All (Sleeps k) fs
    → Distinct fs
    → (wake_all fs k).runnable ≡ in_front fs k.runnable
wake_all_runnable [] k h d = refl
wake_all_runnable (f ∷ fs) k h d =
    wake_all_runnable fs (wake_fiber f k) (rest-Sleep f k h.0 fs d.0 h.1) d.1
    ∙ ap (λ (v : Worker). in_front fs v.runnable) (wake_fiber_lem f k h.0)

wake_all_ready :
    (fs : List ℕ) (k : Worker)
    → All (Sleeps k) fs
    → Distinct fs
    → All (λ f. ((wake_all fs k).fibers f).state ≡ ready) fs
wake_all_ready [] k h d = tt
wake_all_ready (f ∷ fs) k h d = (
  ap (λ (x : Fiber). x.state)
        (wake_all_keeps fs (wake_fiber f k) f (rest-Sleep f k h.0 fs d.0 h.1) d.1 d.0)
      ∙ woken_ready f k h.0,
  wake_all_ready fs (wake_fiber f k) (rest-Sleep f k h.0 fs d.0 h.1) d.1,
)

adds_allowed : (fs : List ℕ) (k : Worker) → All (Sleeps k) fs → Distinct fs → AllMayAdd fs k
adds_allowed [] k h d = tt
adds_allowed (f ∷ fs) k h d =
    (told-MayAdd f k h.0, adds_allowed fs (wake_fiber f k) (rest-Sleep f k h.0 fs d.0 h.1) d.1)

poll_due :
    (kind : ℕ → Kind) (now : Timestamp) (x : ℕ) (timeout : ℕ → Timestamp)
    → kind x ≡ timed
    → IsDue now timeout x
    → poll kind x now timeout ≡ (true, timeout)
unfolding poll poll_as Stamp.le
poll_due kind now x timeout t d =
    rw (t, d)
      (elim (Bool-cases (Stamp.equals (timeout x) now)) [ inl e ↦ rw e refl | inr e ↦ rw e refl ])

-- One round for a timed waitable that is due.
due_one_timed :
    (kind : ℕ → Kind) (now : Timestamp) (x : ℕ) (rest : List ℕ) (w : Waiter)
    → kind x ≡ timed
    → IsDue now w.timeout x
    → due_one (poll kind) now x rest w
      ≡ record w { waiting = rest; worker = wake_all (fibers_of w.owner (x ∷ [])) w.worker }
unfolding due_one
due_one_timed kind now x rest w t d =
    rw (poll_due kind now x w.timeout t d)
      (elim (Bool-cases (w.owner x == 0)) [ inl e ↦ rw e refl | inr e ↦ rw e refl ])

run_due_wakes :
    (kind : ℕ → Kind) (now : Timestamp) (xs ys : List ℕ) (w : Waiter)
    → w.waiting ≡ xs ++ ys
    → All (λ x. kind x ≡ timed) xs
    → All (IsDue now w.timeout) xs
    → All (NotDue now w.timeout) ys
    → run_due (suc (length xs)) (poll kind) now w
      ≡ some (record w { waiting = ys; worker = wake_all (fibers_of w.owner xs) w.worker })
run_due_wakes kind now [] [] w e t d n =
    run_due_empty 0 (poll kind) now w e ∙ ap (λ (zs : List ℕ). some (record w { waiting = zs })) e
run_due_wakes kind now [] (y ∷ ys) w e t d n =
    run_due_stops 0 (poll kind) now w y ys e n.0
    ∙ ap (λ (zs : List ℕ). some (record w { waiting = zs })) e
run_due_wakes kind now (x ∷ xs) ys w e t d n =
    run_due_goes (suc (length xs)) (poll kind) now w x (xs ++ ys) e d.0
    ∙ ap (run_due (suc (length xs)) (poll kind) now) (due_one_timed kind now x (xs ++ ys) w t.0 d.0)
    ∙ run_due_wakes kind now xs ys
        (record w { waiting = xs ++ ys; worker = wake_all (fibers_of w.owner (x ∷ [])) w.worker })
        refl t.1 d.1 n
    ∙ ap (λ (k : Worker). some (record w { waiting = ys; worker = k }))
        (elim (Bool-cases (w.owner x == 0)) [ inl e ↦ rw e refl | inr e ↦ rw e refl ])

-- The loop of the waiter over timed waitables takes off exactly those that are due; it makes
-- each of their fibers ready and puts it at the front of the run queue, so that the one due last
-- is first, and leaves the other fibers as they were; and each add() is of a fiber that is not
-- waiting and in no queue, as it asserts. This is so if the waitables of which the time has come
-- are those at the front, and their fibers are different, wait with Ready as next state, and are
-- in no queue of the worker.
pub run_due_timed :
    (kind : ℕ → Kind) (now : Timestamp) (xs ys : List ℕ) (w : Waiter)
    → w.waiting ≡ xs ++ ys
    → All (λ x. kind x ≡ timed) xs
    → All (IsDue now w.timeout) xs
    → All (NotDue now w.timeout) ys
    → All (Sleeps w.worker) (fibers_of w.owner xs)
    → Distinct (fibers_of w.owner xs)
    → let fs = fibers_of w.owner xs in
      (w' : Waiter) × (run_due (suc (length xs)) (poll kind) now w ≡ some w')
      × (w'.waiting ≡ ys)
      × (w'.worker.runnable ≡ in_front fs w.worker.runnable)
      × All (λ f. (w'.worker.fibers f).state ≡ ready) fs
      × ((g : ℕ) → Away g fs → w'.worker.fibers g ≡ w.worker.fibers g)
      × AllMayAdd fs w.worker
run_due_timed kind now xs ys w e t d n s u =
    let fs = fibers_of w.owner xs in
    (
      record w { waiting = ys; worker = wake_all fs w.worker },
      run_due_wakes kind now xs ys w e t d n,
      refl,
      wake_all_runnable fs w.worker s u,
      wake_all_ready fs w.worker s u,
      (λ g a. wake_all_keeps fs w.worker g s u a),
      adds_allowed fs w.worker s u,
    )
