-- ===== src/Sync/Mutex/Wakeups.antt =====
-- include/libzth/sync.h: the queue of a Mutex and the fibers that are woken, whoever unlocks it.
use zth.Base.{
  ℕ, ap, Bool-cases, List-cases, ◌≡◌, ◌⊎◌, inl, inr, refl, ◌∙◌, Bool, true, false, List, [], ◌∷◌,
  arith,
}
use zth.Sync.Queue.{
  update, enqueue, count, count-enqueue, contains, erase, unblock, count-contains, count-erase,
}
use zth.Sync.Mutex.{Mutex, Outcome, lock, trylock, trylock_until, trylock_again, ring, unlock}
use zth.Sync.Mutex.Ends.{
  Ends, lock-Ends, trylock-Ends, trylock_until-Ends, trylock_again-Ends, unlock_alone,
  unlock_queued,
}
use zth.Sync.Mutex.System.{
  System, Place, outside, parked, parked_until, woken, woken_until, rung, holding, Event, locks,
  retries, tries, tries_until, retries_until, rings, unlocks, step, run, start, finish,
  finish_until, let_go, alarmed, is_at, is_at-eq, is_free, woken_in,
}

-- A fiber is in the queue once if it is parked, and else not.
abbrev pub queued : Place → ℕ
queued parked = 1
queued parked_until = 1
queued _ = 0

abbrev pub is_awake : Place → Bool
is_awake woken = true
is_awake woken_until = true
is_awake _ = false

pub record Inv (s : System) : Type 0 where
  pub fits : (i : ℕ) → count i s.mutex.queue ≡ queued (s.place i)
  pub awake :
      s.mutex.locked ≡ false → (s.mutex.queue ≡ []) ⊎ ((i : ℕ) × (is_awake (s.place i) ≡ true))

start-Inv : Inv start
unfolding count
start-Inv = record { fits = λ i. refl; awake = λ _. inl refl }

ring_hits :
    (i : ℕ) (m : Mutex)
    → contains i m.queue ≡ true
    → ring i m ≡ (true, record m { queue = erase i m.queue })
unfolding ring unblock
ring_hits i m c = ground (arith, c)

woken_in-queued : (p : Place) → queued (woken_in p) ≡ 0
woken_in-queued parked_until = refl
woken_in-queued outside = refl
woken_in-queued parked = refl
woken_in-queued woken = refl
woken_in-queued woken_until = refl
woken_in-queued rung = refl
woken_in-queued holding = refl

woken_in-awake : (p : Place) → is_awake (woken_in p) ≡ true
woken_in-awake parked_until = refl
woken_in-awake outside = refl
woken_in-awake parked = refl
woken_in-awake woken = refl
woken_in-awake woken_until = refl
woken_in-awake rung = refl
woken_in-awake holding = refl

module _ {s : System} (inv : Inv s) (i : ℕ) where
  open inv use {fits, awake}

  -- The fiber finds the mutex locked, and is queued.
  park_Inv :
      (p : Place)
      → queued p ≡ 1
      → queued (s.place i) ≡ 0
      → s.mutex.locked ≡ true
      → Inv (record {
        mutex = record s.mutex { queue = enqueue i s.mutex.queue };
        place = update s.place i p;
      })
  park_Inv p q h l = record {
    fits = λ a. ground (arith, fits a, count-enqueue a i s.mutex.queue);
    awake = λ e. cc;
  }

  -- The fiber takes the mutex.
  take-Inv :
      queued (s.place i) ≡ 0
      → Inv (record { mutex = record s.mutex { locked = true }; place = update s.place i holding })
  take-Inv h = record { fits = λ a. ground (arith, fits a); awake = λ e. cc }

  -- The fiber goes elsewhere, which was not to wake up, or the mutex is locked.
  move-Inv :
      (p : Place)
      → queued p ≡ 0
      → queued (s.place i) ≡ 0
      → (s.mutex.locked ≡ true) ⊎ (is_awake (s.place i) ≡ false)
      → Inv (record s { place = update s.place i p })
  move-Inv p q h l = record {
    fits = λ a. ground (arith, fits a);
    awake = λ e. elim l [
      | inl t ↦ absurd (cc (t, e))
      | inr n ↦ elim (awake e) [ inl z ↦ inl z | inr (a, w) ↦ inr (a, ground arith) ]
    ];
  }

  -- The alarm of a queued fiber.
  rung-Inv : s.place i ≡ parked_until → Inv (alarmed i s (ring i s.mutex))
  rung-Inv h = elim (Bool-cases (contains i s.mutex.queue)) [
    | inl c ↦ rw (ring_hits i s.mutex c) (record {
      fits = λ a. ground (arith, fits a, h, count-erase i a s.mutex.queue c);
      awake = λ e. elim (awake e) [
        | inl z ↦ absurd (unfold count in ground (arith, fits i, h, ap (count i) z))
        | inr (a, w) ↦ inr (a, ground arith)
      ];
    })
    | inr c ↦ absurd (ground (arith, fits i, h, count-contains i s.mutex.queue c))
  ]

  -- The fiber leaves an empty queue, or wakes the first of the queue.
  leave_Inv :
      queued (s.place i) ≡ 0
      → s.mutex.queue ≡ []
      → Inv (record {
        mutex = record { locked = false; queue = [] };
        place = update s.place i outside;
      })
  unfolding count
  leave_Inv h e = record {
    fits = λ a. ground (arith, fits a, ap (count a) e);
    awake = λ _. inl refl;
  }

  pass_Inv :
      (f : ℕ) (q : List ℕ)
      → queued (s.place i) ≡ 0
      → s.mutex.queue ≡ f ∷ q
      → let p = update s.place i outside in
        Inv (record {
          mutex = record { locked = false; queue = q };
          place = update p f (woken_in (p f));
        })
  unfolding count
  pass_Inv f q h e = record {
    fits = λ a. ground (
      arith,
      fits a,
      fits f,
      ap (count a) e,
      ap (count f) e,
      woken_in-queued (update s.place i outside f),
    );
    awake = λ _. inr (f, ground (arith, woken_in-awake (update s.place i outside f)));
  }

  finish-Inv :
      (r : Outcome × Mutex) → queued (s.place i) ≡ 0 → Ends i false s.mutex r → Inv (finish i s r)
  finish-Inv r h (inl (l, e)) = rw e (take-Inv h)
  finish-Inv r h (inr (inl (l, e))) = rw e (park_Inv parked refl h l)
  finish-Inv r h (inr (inr (inl (l, e)))) = rw e (move-Inv woken refl h (inl l))
  finish-Inv r h (inr (inr (inr (inl l, e)))) = rw e (move-Inv outside refl h (inl l))
  finish-Inv r h (inr (inr (inr (inr f, e)))) = absurd (ground (arith, f))

  -- A fiber whose alarm rang was not to wake up.
  finish_until-Inv :
      (rang : Bool) (r : Outcome × Mutex)
      → queued (s.place i) ≡ 0
      → (rang ≡ false) ⊎ (is_awake (s.place i) ≡ false)
      → Ends i rang s.mutex r
      → Inv (finish_until i s r)
  finish_until-Inv rang r h a (inl (l, e)) = rw e (take-Inv h)
  finish_until-Inv rang r h a (inr (inl (l, e))) = rw e (park_Inv parked_until refl h l)
  finish_until-Inv rang r h a (inr (inr (inl (l, e)))) = rw e (move-Inv woken_until refl h (inl l))
  finish_until-Inv rang r h a (inr (inr (inr (inl l, e)))) = rw e (move-Inv outside refl h (inl l))
  finish_until-Inv rang r h a (inr (inr (inr (inr f, e)))) =
      rw e (move-Inv outside refl h (inr (ground (arith, a, f))))

  unlock-Inv : queued (s.place i) ≡ 0 → Inv (let_go i s (unlock s.mutex))
  unlock-Inv h = elim (List-cases s.mutex.queue) [
    | inl e ↦ rw (unlock_alone s.mutex e) (leave_Inv h e)
    | inr (f, q, e) ↦ rw (unlock_queued s.mutex f q e) (pass_Inv f q h e)
  ]

-- The place of a fiber that an event asks for.
unqueued : (p q : Place) → is_at p q ≡ true → queued q ≡ 0 → queued p ≡ 0
unqueued p q h e = ap queued (is_at-eq p q h) ∙ e

free_unqueued : (p : Place) → is_free p ≡ true → queued p ≡ 0
free_unqueued p h = ground arith

step-Inv : (s : System) (e : Event) → Inv s → Inv (step s e)
unfolding step
step-Inv s (locks i) inv = elim (Bool-cases (is_at (s.place i) outside)) [
  | inl h ↦ rw h (
      finish-Inv inv i (lock i s.mutex) (unqueued (s.place i) outside h refl) (lock-Ends i s.mutex))
  | inr h ↦ rw h inv
]
step-Inv s (retries i) inv = elim (Bool-cases (is_at (s.place i) woken)) [
  | inl h ↦
      rw h (
        finish-Inv inv i (lock i s.mutex) (unqueued (s.place i) woken h refl) (lock-Ends i s.mutex))
  | inr h ↦ rw h inv
]
step-Inv s (tries i) inv = elim (Bool-cases (is_at (s.place i) outside)) [
  | inl h ↦ rw h (
      finish-Inv inv i (trylock s.mutex) (unqueued (s.place i) outside h refl)
        (trylock-Ends i s.mutex))
  | inr h ↦ rw h inv
]
step-Inv s (tries_until i timeout now) inv = elim (Bool-cases (is_at (s.place i) outside)) [
  | inl h ↦ rw h (
      finish_until-Inv inv i false (trylock_until i timeout now s.mutex)
        (unqueued (s.place i) outside h refl) (inl refl) (trylock_until-Ends i timeout now s.mutex))
  | inr h ↦ rw h inv
]
step-Inv s (retries_until i timeout now) inv = elim (Bool-cases (is_at (s.place i) rung)) [
  | inl h ↦ rw h (
      finish_until-Inv inv i true (trylock_again true i timeout now s.mutex)
        (unqueued (s.place i) rung h refl) (inr (ap is_awake (is_at-eq (s.place i) rung h)))
        (trylock_again-Ends true i timeout now s.mutex))
  | inr h ↦ elim (Bool-cases (is_at (s.place i) woken_until)) [
    | inl k ↦
        rw (h, k)
          (finish_until-Inv inv i false (trylock_again false i timeout now s.mutex)
            (unqueued (s.place i) woken_until k refl) (inl refl)
            (trylock_again-Ends false i timeout now s.mutex))
    | inr k ↦ rw (h, k) inv
  ]
]
step-Inv s (rings i) inv = elim (Bool-cases (is_at (s.place i) parked_until)) [
  | inl h ↦ rw h (rung-Inv inv i (is_at-eq (s.place i) parked_until h))
  | inr h ↦ rw h inv
]
step-Inv s (unlocks i) inv = elim (Bool-cases (is_free (s.place i))) [
  | inl h ↦ rw h (unlock-Inv inv i (free_unqueued (s.place i) h))
  | inr h ↦ rw h inv
]

run-Inv : (s : System) (es : List Event) → Inv s → Inv (run s es)
unfolding run
run-Inv s [] inv = inv
run-Inv s (e ∷ es) inv = run-Inv (step s e) es (step-Inv s e inv)

-- No wakeup of a mutex is lost: after any history of lock(), trylock(), trylock(Timestamp) and
-- unlock() calls, whichever fibers call unlock(), and of wakeups and alarms, while a fiber is in
-- the queue of the mutex, the mutex is locked, or some fiber has been woken and is to try again.
pub lock_wakes_next :
    (es : List Event) (i : ℕ)
    → queued ((run start es).place i) ≡ 1
    → ((run start es).mutex.locked ≡ true) ⊎ ((j : ℕ) × (is_awake ((run start es).place j) ≡ true))
lock_wakes_next es i p = elim (Bool-cases (run start es).mutex.locked) [
  | inl l ↦ inl l
  | inr u ↦ elim (inv.awake u) [ inl empty ↦ absurd (nobody empty) | inr w ↦ inr w ]
]
  where
    inv : Inv (run start es)
    inv = run-Inv start es start-Inv

    nobody : (run start es).mutex.queue ≡ [] → ⊥
    nobody empty = unfold count in ground (arith, inv.fits i, p, ap (count i) empty)
