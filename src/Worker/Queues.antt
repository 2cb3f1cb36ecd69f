-- ===== src/Worker/Queues.antt =====
-- include/libzth/worker.h: the two queues of a worker and the states of the fibers in them.
use zth.Base.{
  ℕ, ◌≡◌, ◌≢◌, sym, ap, subst, ◌∙◌, arith, ◌⊎◌, inl, inr, true, false, List, [], ◌∷◌, ◌++◌,
  append-nil, Bool-cases, if◌then◌else◌, ◌==◌, All, All-append,
}
use zth.Fiber.{Fiber, State, new, running, ready, suspended, waiting, is_state}
use zth.Fiber
use zth.Sync.Queue.{erase}
use zth.List.Cycle.{Away, Distinct}
use zth.List.Ring.{Distinct-put}
use zth.Worker.{Worker, store, add, release, suspend, suspend_in, resume}
use zth.Worker.Schedule.{same_test, other_test}

-- The suspended queue has suspended fibers, and the run queue has others, each once.
abbrev pub IsPlaced : Worker → Type 0
IsPlaced w =
    All (λ f. (w.fibers f).state ≡ suspended) w.suspended
    × All (λ f. (w.fibers f).state ≢ suspended) w.runnable
    × Distinct w.suspended
    × Distinct w.runnable

equal : (a b : ℕ) → (a == b) ≡ true → a ≡ b
equal a b e = ground (arith, e)

unequal : (a b : ℕ) → (a == b) ≡ false → a ≢ b
unequal a b e = ground (arith, e)

erase-All : (P : ℕ → Type 0) (f : ℕ) (xs : List ℕ) → All P xs → All P (erase f xs)
unfolding erase
erase-All P f [] h = tt
erase-All P f (x ∷ xs) h = elim (Bool-cases (x == f)) [
  | inl e ↦ rw e h.1
  | inr e ↦ rw e (h.0, erase-All P f xs h.1)
]

erase-Distinct : (f : ℕ) (xs : List ℕ) → Distinct xs → Distinct (erase f xs)
unfolding erase
erase-Distinct f [] d = tt
erase-Distinct f (x ∷ xs) d = elim (Bool-cases (x == f)) [
  | inl e ↦ rw e d.1
  | inr e ↦ rw e (erase-All (λ y. y ≢ x) f xs d.0, erase-Distinct f xs d.1)
]

pub erase-Away : (f : ℕ) (xs : List ℕ) → Distinct xs → Away f (erase f xs)
unfolding erase
erase-Away f [] d = tt
erase-Away f (x ∷ xs) d = elim (Bool-cases (x == f)) [
  | inl e ↦ rw e (subst (λ (k : ℕ). Away k xs) (equal x f e) d.0)
  | inr e ↦ rw e (unequal x f e, erase-Away f xs d.1)
]

pub store_at : (fs : ℕ → Fiber) (f : ℕ) (x : Fiber) → store fs f x f ≡ x
store_at fs f x = rw (same_test f)

-- A fiber that is stored does not touch those of a queue without it.
All-store :
    (P : State → Type 0) (fs : ℕ → Fiber) (f : ℕ) (x : Fiber) (ys : List ℕ)
    → Away f ys
    → All (λ y. P (fs y).state) ys
    → All (λ y. P (store fs f x y).state) ys
All-store P fs f x [] a h = tt
All-store P fs f x (y ∷ ys) a h =
    (rw (other_test f y (λ e. a.0 (sym e))) h.0, All-store P fs f x ys a.1 h.1)

-- Fibers in a state are not the one that is in another.
pub apart :
    (P : State → Type 0) (fs : ℕ → Fiber) (f : ℕ) (ys : List ℕ)
    → (P (fs f).state → ⊥)
    → All (λ y. P (fs y).state) ys
    → Away f ys
apart P fs f [] n h = tt
apart P fs f (y ∷ ys) n h =
    ((λ e. n (subst (λ (k : ℕ). P (fs k).state) e h.0)), apart P fs f ys n h.1)

-- The fibers that suspend() takes from the run queue.
abbrev pub Suspendable : State → Type 0
Suspendable s = (s ≡ new) ⊎ ((s ≡ ready) ⊎ (s ≡ running))

pub suspended_state : (f : Fiber) → Suspendable f.state → (Fiber.suspend f).state ≡ suspended
unfolding Fiber.suspend
suspended_state f h = ground arith

pub not_suspended : (s : State) → Suspendable s → s ≢ suspended
not_suspended s h = ground arith

-- suspend() of such a fiber.
unfoldable pub moved : ℕ → Worker → Worker
moved f w = record w {
  fibers = store w.fibers f (Fiber.suspend (w.fibers f));
  runnable = erase f w.runnable;
  suspended = w.suspended ++ f ∷ [];
}

pub is_suspended : (s : State) → s ≢ suspended → is_state s suspended ≡ false
is_suspended s n = ground arith

pub release_runnable :
    (w : Worker) (f : ℕ)
    → (w.fibers f).state ≢ suspended
    → release f w ≡ record w { runnable = erase f w.runnable }
unfolding release
release_runnable w f n = rw (is_suspended (w.fibers f).state n)

add_suspended :
    (w : Worker) (f : ℕ)
    → (w.fibers f).state ≡ suspended
    → add false f w ≡ record w { suspended = w.suspended ++ f ∷ [] }
unfolding add
add_suspended w f e =
    ap
      (λ (s : State).
        if is_state s suspended
        then record w { suspended = w.suspended ++ f ∷ [] }
        else record w { runnable = w.runnable ++ f ∷ [] })
      e

suspend_in_moved : (s : State) (a b c : Worker) → Suspendable s → (suspend_in s a b c).1 ≡ a
unfolding suspend_in
suspend_in_moved s a b c (inl e) = rw e
suspend_in_moved s a b c (inr (inl e)) = rw e
suspend_in_moved s a b c (inr (inr e)) = rw e

pub suspend-moved :
    (w : Worker) (f : ℕ) → Suspendable (w.fibers f).state → (suspend f w).1 ≡ moved f w
unfolding suspend moved
suspend-moved w f h =
    let fibers = store w.fibers f (Fiber.suspend (w.fibers f)) in
    suspend_in_moved (w.fibers f).state (add false f (record (release f w) { fibers = fibers }))
      (record w { fibers = fibers }) w h
    ∙ ap (λ (v : Worker). add false f (record v { fibers = fibers }))
        (release_runnable w f (not_suspended (w.fibers f).state h))
    ∙ add_suspended (record w { runnable = erase f w.runnable; fibers = fibers }) f
        (ap (λ (x : Fiber). x.state) (store_at w.fibers f (Fiber.suspend (w.fibers f)))
          ∙ suspended_state (w.fibers f) h)

pub suspend-IsPlaced :
    (w : Worker) (f : ℕ) → Suspendable (w.fibers f).state → IsPlaced w → IsPlaced (suspend f w).1
suspend-IsPlaced w f h p =
    let away =
      apart (λ s. s ≡ suspended) w.fibers f w.suspended (not_suspended (w.fibers f).state h) p.0 in
    let left = erase-Away f w.runnable p.3 in
    let x = Fiber.suspend (w.fibers f) in
    subst IsPlaced (sym (suspend-moved w f h)) (
      unfold moved in
      (
        All-append (λ y. (store w.fibers f x y).state ≡ suspended) w.suspended (f ∷ [])
            (All-store (λ s. s ≡ suspended) w.fibers f x w.suspended away p.0)
            (
              ap (λ (g : Fiber). g.state) (store_at w.fibers f x) ∙ suspended_state (w.fibers f) h,
              tt,
            ),
        All-store (λ s. s ≢ suspended) w.fibers f x (erase f w.runnable) left
            (erase-All (λ y. (w.fibers y).state ≢ suspended) f w.runnable p.1),
        Distinct-put f w.suspended [] (rw (append-nil w.suspended) away)
            (rw (append-nil w.suspended) p.2),
        erase-Distinct f w.runnable p.3,
      ))

pub suspended_or : (s : State) → (s ≡ suspended) ⊎ (s ≢ suspended)
suspended_or s = ground arith

resumed_state :
    (f : Fiber)
    → f.state ≡ suspended
    → f.state_next ≢ suspended
    → (Fiber.resume f).state ≢ suspended
unfolding Fiber.resume
resumed_state f e n = ground arith

add_runnable :
    (w : Worker) (f : ℕ)
    → (w.fibers f).state ≢ suspended
    → add false f w ≡ record w { runnable = w.runnable ++ f ∷ [] }
unfolding add
add_runnable w f n = rw (is_suspended (w.fibers f).state n)

pub release_suspended :
    (w : Worker) (f : ℕ)
    → (w.fibers f).state ≡ suspended
    → release f w ≡ record w { suspended = erase f w.suspended }
unfolding release
release_suspended w f e =
    ap
      (λ (s : State).
        if is_state s suspended
        then record w { suspended = erase f w.suspended }
        else record w { runnable = erase f w.runnable })
      e

-- resume() of a suspended fiber.
unfoldable pub back : ℕ → Worker → Worker
back f w = record w {
  fibers = store w.fibers f (Fiber.resume (w.fibers f));
  runnable = w.runnable ++ f ∷ [];
  suspended = erase f w.suspended;
}

pub resume-back :
    (w : Worker) (f : ℕ)
    → (w.fibers f).state ≡ suspended
    → (w.fibers f).state_next ≢ suspended
    → resume f w ≡ back f w
unfolding resume back
resume-back w f e n =
    let fibers = store w.fibers f (Fiber.resume (w.fibers f)) in
    ap
      (λ (s : State).
        if is_state s suspended then add false f (record (release f w) { fibers = fibers }) else w)
      e
    ∙ ap (λ (v : Worker). add false f (record v { fibers = fibers })) (release_suspended w f e)
    ∙ add_runnable (record w { suspended = erase f w.suspended; fibers = fibers }) f
        (subst (λ (x : Fiber). x.state ≢ suspended)
          (sym (store_at w.fibers f (Fiber.resume (w.fibers f)))) (resumed_state (w.fibers f) e n))

pub resume_other : (w : Worker) (f : ℕ) → (w.fibers f).state ≢ suspended → resume f w ≡ w
unfolding resume
resume_other w f n = rw (is_suspended (w.fibers f).state n)

back-IsPlaced :
    (w : Worker) (f : ℕ)
    → (w.fibers f).state ≡ suspended
    → (w.fibers f).state_next ≢ suspended
    → IsPlaced w
    → IsPlaced (back f w)
unfolding back
back-IsPlaced w f e n p =
    let away = apart (λ s. s ≢ suspended) w.fibers f w.runnable (λ h. h e) p.1 in
    let left = erase-Away f w.suspended p.2 in
    let x = Fiber.resume (w.fibers f) in
    (
      All-store (λ s. s ≡ suspended) w.fibers f x (erase f w.suspended) left
          (erase-All (λ y. (w.fibers y).state ≡ suspended) f w.suspended p.0),
      All-append (λ y. (store w.fibers f x y).state ≢ suspended) w.runnable (f ∷ [])
          (All-store (λ s. s ≢ suspended) w.fibers f x w.runnable away p.1)
          (
            subst (λ (g : Fiber). g.state ≢ suspended) (sym (store_at w.fibers f x))
                (resumed_state (w.fibers f) e n),
            tt,
          ),
      erase-Distinct f w.suspended p.2,
      Distinct-put f w.runnable [] (rw (append-nil w.runnable) away)
          (rw (append-nil w.runnable) p.3),
    )

pub resume-IsPlaced :
    (w : Worker) (f : ℕ) → (w.fibers f).state_next ≢ suspended → IsPlaced w → IsPlaced (resume f w)
resume-IsPlaced w f n p = elim (suspended_or (w.fibers f).state) [
  | inl e ↦ subst IsPlaced (sym (resume-back w f e n)) (back-IsPlaced w f e n p)
  | inr o ↦ subst IsPlaced (sym (resume_other w f o)) p
]
