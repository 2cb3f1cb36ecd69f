-- ===== src/Worker/Schedule.antt =====
-- include/libzth/worker.h: which fiber schedule() switches to.
use zth.Base.{
  ℕ, zero, suc, ◌+◌, ◌-◌, ◌<◌, ◌≡◌, ◌≢◌, refl, sym, ap, subst, ◌∙◌, arith, Bool, true, false, not,
  ◌&&◌, Option, some, List, [], ◌∷◌, ◌++◌, length, length-append, ◌⊎◌, inl, inr, if◌then◌else◌,
  ◌==◌, All,
}
use zth.Time.Stamp.{Timestamp}
use zth.Time.Stamp
use zth.Fiber.{Fiber, Env, Ran, new, running, ready, dead, eperm, run_fuel, dispatch, switch_to}
use zth.Fiber
use zth.Sync.Queue.{erase}
use zth.List.Ring.{All-split}
use zth.List.Cycle.{Away, Distinct}
use zth.Worker.{
  Worker, Outcome, switches, returns, store, rotate_past, cleanup, after_run, prev_fiber,
  schedule_from, schedule,
}

run_dead :
    (env : Env) (self from : Fiber) (now : Timestamp)
    → self.state ≡ dead
    → Fiber.run env self from now ≡ some (eperm, self, from)
unfolding Fiber.run run_fuel dispatch
run_dead env self from now e = rw e

run_ready :
    (env : Env) (self from : Fiber) (now : Timestamp)
    → self.state ≡ ready
    → Fiber.run env self from now
      ≡ some (0, (switch_to env self from now).0, (switch_to env self from now).1)
unfolding Fiber.run run_fuel dispatch
run_ready env self from now e = rw e

pub same_test : (n : ℕ) → (n == n) ≡ true
same_test n = ground arith

pub other_test : (a b : ℕ) → a ≢ b → (a == b) ≡ false
other_test a b n = ground arith

rotate_first : (x : ℕ) (xs : List ℕ) → rotate_past x [] (x ∷ xs) ≡ xs ++ x ∷ []
unfolding rotate_past
rotate_first x xs = rw (same_test x)

erase_last : (x : ℕ) (xs : List ℕ) → Away x xs → erase x (xs ++ x ∷ []) ≡ xs
unfolding erase
erase_last x [] a = rw (same_test x)
erase_last x (y ∷ ys) a = rw (other_test y x a.0, erase_last x ys a.1)

not_over :
    (t now : Timestamp)
    → (Stamp.is_null t ≡ true) ⊎ (Stamp.is_before t now ≡ false)
    → (not (Stamp.is_null t) && Stamp.is_before t now) ≡ false
not_over t now (inl e) = rw e
not_over t now (inr e) = rw e (ground arith)

module _ (env : Env) (now later : Timestamp) where
  -- The worker with a queue, and the fibers once that ran out of a dead one.
  queued : Worker → List ℕ → Worker
  queued w q = record w { runnable = q }

  stored : Worker → ℕ → ℕ → Fiber
  stored w d = store (store w.fibers (prev_fiber w) (w.fibers (prev_fiber w))) d (w.fibers d)

  dropped : Worker → ℕ → Worker
  dropped w d = record w {
    fibers = store (stored w d) d (record (w.fibers d) { refs = (w.fibers d).refs - 1 });
  }

  round_dead :
      (n : ℕ) (did : Bool) (w : Worker) (d : ℕ) (rest : List ℕ)
      → (w.fibers d).state ≡ dead
      → d ≢ w.home
      → w.current ≢ d
      → Away d rest
      → schedule_from (suc n) env now later 0 did (queued w (d ∷ rest))
        ≡ schedule_from n env now later 0 true (queued (dropped w d) rest)
  unfolding schedule_from after_run cleanup queued dropped stored
  round_dead n did w d rest e h c a =
      let again : Worker → Option (Outcome × Worker) =
        λ v. schedule_from n env now later 0 true v in
      let leave : Worker → Option (Outcome × Worker) =
        λ v. schedule_from n env later later w.home false v in
      ap
        (λ (q : List ℕ).
          after_run again leave did d (prev_fiber w) w.current
            (Fiber.run env (w.fibers d) (w.fibers (prev_fiber w)) now)
            (record w { current = d; runnable = q }))
        (rw (other_test d w.home h) (rotate_first d rest))
      ∙ ap
          (λ (r : Option Ran).
            after_run again leave did d (prev_fiber w) w.current r
              (record w { current = d; runnable = rest ++ d ∷ [] }))
          (run_dead env (w.fibers d) (w.fibers (prev_fiber w)) now e)
      ∙ rw (other_test w.current d c, erase_last d rest a, same_test d)

  store_same : (fs : ℕ → Fiber) (f x : ℕ) → store fs f (fs f) x ≡ fs x
  store_same fs f x = ground arith

  -- Only the dead fiber changed.
  kept : (w : Worker) (d y : ℕ) → y ≢ d → (dropped w d).fibers y ≡ w.fibers y
  unfolding dropped stored
  kept w d y n = rw (other_test d y (λ e. n (sym e))) (store_same w.fibers (prev_fiber w) y)

  abbrev pub All-dead : (w : Worker) → List ℕ → Type 0
  All-dead w = All (λ y. (w.fibers y).state ≡ dead)

  dead_kept :
      (w : Worker) (d : ℕ) (ys : List ℕ) → Away d ys → All-dead w ys → All-dead (dropped w d) ys
  dead_kept w d [] a h = tt
  dead_kept w d (y ∷ ys) a h =
      (ap (λ (f : Fiber). f.state) (kept w d y a.0) ∙ h.0, dead_kept w d ys a.1 h.1)

  -- A worker that switched to x.
  pub record Switched (x : ℕ) (q : List ℕ) (w : Worker) : Type 0 where
    pub current : w.current ≡ x
    pub queue : w.runnable ≡ q
    pub runs : (w.fibers x).state ≡ running

  round_ready :
      (n : ℕ) (did : Bool) (w : Worker) (x : ℕ) (xs : List ℕ)
      → (w.fibers x).state ≡ ready
      → x ≢ w.home
      → (v : Worker) × (schedule_from (suc n) env now later 0 did (queued w (x ∷ xs))
          ≡ some (switches, v))
        × Switched x (xs ++ x ∷ []) v
  unfolding schedule_from after_run queued
  round_ready n did w x xs e h =
      let again : Worker → Option (Outcome × Worker) =
        λ v. schedule_from n env now later 0 true v in
      let leave : Worker → Option (Outcome × Worker) =
        λ v. schedule_from n env later later w.home false v in
      let r = switch_to env (w.fibers x) (w.fibers (prev_fiber w)) now in
      (
        record w {
          current = x;
          runnable = xs ++ x ∷ [];
          fibers = store (store w.fibers (prev_fiber w) r.1) x r.0;
        },
        ap
              (λ (q : List ℕ).
                after_run again leave did x (prev_fiber w) w.current
                  (Fiber.run env (w.fibers x) (w.fibers (prev_fiber w)) now)
                  (record w { current = x; runnable = q }))
              (rw (other_test x w.home h) (rotate_first x xs))
            ∙ ap
                (λ (o : Option Ran).
                  after_run again leave did x (prev_fiber w) w.current o
                    (record w { current = x; runnable = xs ++ x ∷ [] }))
                (run_ready env (w.fibers x) (w.fibers (prev_fiber w)) now e),
        record { current = refl; queue = refl; runs = unfold switch_to in rw (same_test x) },
      )

  skips_dead :
      (n : ℕ) (did : Bool) (w : Worker) (ds : List ℕ) (x : ℕ) (xs : List ℕ)
      → length ds < n
      → All-dead w ds
      → Away w.home ds
      → All (λ d. w.current ≢ d) ds
      → Distinct (ds ++ x ∷ xs)
      → (w.fibers x).state ≡ ready
      → x ≢ w.home
      → (v : Worker) × (schedule_from n env now later 0 did (queued w (ds ++ x ∷ xs))
          ≡ some (switches, v))
        × Switched x (xs ++ x ∷ []) v
  unfolding dropped
  skips_dead zero did w ds x xs l a h c u e g = absurd (omega (arith, l))
  skips_dead (suc n) did w [] x xs l a h c u e g = round_ready n did w x xs e g
  skips_dead (suc n) did w (d ∷ ds) x xs l a h c u e g =
      let (p, q) = All-split d ds (x ∷ xs) u.0 in
      let (v, s, t) =
        skips_dead n true (dropped w d) ds x xs (omega (arith, l)) (dead_kept w d ds p a.1) h.1 c.1
          u.1 (ap (λ (f : Fiber). f.state) (kept w d x q.0) ∙ e) g in
      (v, round_dead n did w d (ds ++ x ∷ xs) a.0 h.0 c.0 u.0 ∙ s, t)

  schedule_runs :
      (w : Worker)
      → w.disabled ≡ 0
      → (Stamp.is_null w.run_end ≡ true) ⊎ (Stamp.is_before w.run_end now ≡ false)
      → schedule env 0 now later w ≡ schedule_from (length w.runnable + 2) env now later 0 false w
  unfolding schedule
  schedule_runs w z o =
      let over = not (Stamp.is_null w.run_end) && Stamp.is_before w.run_end now in
      ap
        (λ (k : ℕ).
          if k == 0
          then schedule_from (length w.runnable + 2) env now later (if over then w.home else 0)
              false w
          else some (returns true, w))
        z
      ∙ ap
          (λ (b : Bool).
            schedule_from (length w.runnable + 2) env now later (if b then w.home else 0) false w)
          (not_over w.run_end now o)

  -- If the first fibers of the run queue are dead and the next is ready, schedule() without a
  -- preferred fiber, with context switches enabled and the time of the worker not over, cleans
  -- up the dead ones and switches to the ready one, which then is the current fiber, runs, and
  -- stands last in the queue; this is so if no fiber is in the queue twice, the worker's own is
  -- not in it, and the current fiber is not one of the dead.
  pub schedule_first :
      (w : Worker) (ds : List ℕ) (x : ℕ) (xs : List ℕ)
      → w.disabled ≡ 0
      → (Stamp.is_null w.run_end ≡ true) ⊎ (Stamp.is_before w.run_end now ≡ false)
      → w.runnable ≡ ds ++ x ∷ xs
      → Distinct (w.home ∷ ds ++ x ∷ xs)
      → All-dead w ds
      → All (λ d. w.current ≢ d) ds
      → (w.fibers x).state ≡ ready
      → (v : Worker) × (schedule env 0 now later w ≡ some (switches, v))
        × Switched x (xs ++ x ∷ []) v
  unfolding queued
  schedule_first w ds x xs z o q u a c e =
      let (p, g) = All-split w.home ds (x ∷ xs) u.0 in
      let (v, s, t) =
        skips_dead (length w.runnable + 2) false w ds x xs
          (omega (arith, ap length q, length-append ds (x ∷ xs))) a p c u.1 e g.0 in
      (
        v,
        schedule_runs w z o
            ∙ (subst
                (λ (l : List ℕ).
                  schedule_from (length w.runnable + 2) env now later 0 false (queued w l)
                  ≡ some (switches, v))
                (sym q) s),
        t,
      )
