-- ===== src/Sync/Mutex/Safety.antt =====
-- include/libzth/sync.h: who holds a Mutex, and the loop of trylock(Timestamp).
use zth.Base.{
  All, ℕ, Bool-cases, List-cases, ◌≡◌, ◌≢◌, sym, ◌∙◌, ◌⊎◌, inl, inr, refl, Bool, true, false, List,
  [], ◌∷◌, arith,
}
use zth.Time.Stamp.{Timestamp}
use zth.Time.Stamp
use zth.Sync.Queue.{update, enqueue}
use zth.Sync.Mutex.{
  Mutex, Outcome, spins, trylock_loop, trylock_until, lock, trylock, trylock_again, ring, unlock,
}
use zth.Sync.Mutex.Ends.{
  Ends, lock-Ends, trylock-Ends, trylock_until-Ends, trylock_again-Ends, unlock_alone,
  unlock_queued,
}
use zth.Sync.Mutex.System.{
  System, Place, outside, parked, parked_until, woken, woken_until, rung, holding, Event, locks,
  retries, tries, tries_until, retries_until, rings, unlocks, step, run, start, finish,
  finish_until, let_go, alarmed, is_at, is_at-eq, woken_in, AllOwn, IsOwn,
}

pub record Held (s : System) : Type 0 where
  pub one : (i j : ℕ) → s.place i ≡ holding → s.place j ≡ holding → i ≡ j
  pub locked : (i : ℕ) → s.place i ≡ holding → s.mutex.locked ≡ true
  pub owner : s.mutex.locked ≡ true → (i : ℕ) × (s.place i ≡ holding)

start-Held : Held start
start-Held = record { one = λ i j p q. cc; locked = λ i p. cc; owner = λ p. cc }

woken_in-holding : (p : Place) → woken_in p ≢ holding
woken_in-holding p h = ground arith

ring-locked : (i : ℕ) (m : Mutex) → (ring i m).1.locked ≡ m.locked
unfolding ring
ring-locked i m = refl

module _ {s : System} (held : Held s) (i : ℕ) where
  open held use {one, locked, owner}

  -- The fiber takes the mutex.
  take-Held :
      s.mutex.locked ≡ false
      → Held (record { mutex = record s.mutex { locked = true }; place = update s.place i holding })
  take-Held l = record {
    one = λ a b p q. ground (arith, locked a, locked b);
    locked = λ a p. refl;
    owner = λ _. (i, ground arith);
  }

  -- A fiber without the mutex goes elsewhere, and the queue may change.
  move-Held :
      (m : Mutex) (p : Place)
      → m.locked ≡ s.mutex.locked
      → p ≢ holding
      → s.place i ≢ holding
      → Held (record { mutex = m; place = update s.place i p })
  move-Held m p e n h = record {
    one = λ a b x y. ground (arith, one a b);
    locked = λ a x. ground (arith, locked a, e);
    owner = λ x. let (a, y) = owner (cc (x, e)) in (a, ground (arith, y));
  }

  finish-Held :
      (r : Outcome × Mutex) → s.place i ≢ holding → Ends i false s.mutex r → Held (finish i s r)
  finish-Held r h (inl (l, e)) = rw e (take-Held l)
  finish-Held r h (inr (inl (l, e))) =
      rw e (move-Held (record s.mutex { queue = enqueue i s.mutex.queue }) parked refl (λ x. cc) h)
  finish-Held r h (inr (inr (inl (l, e)))) = rw e (move-Held s.mutex woken refl (λ x. cc) h)
  finish-Held r h (inr (inr (inr (l, e)))) = rw e (move-Held s.mutex outside refl (λ x. cc) h)

  finish_until-Held :
      (rang : Bool) (r : Outcome × Mutex)
      → s.place i ≢ holding
      → Ends i rang s.mutex r
      → Held (finish_until i s r)
  finish_until-Held rang r h (inl (l, e)) = rw e (take-Held l)
  finish_until-Held rang r h (inr (inl (l, e))) =
      rw e (
        move-Held (record s.mutex { queue = enqueue i s.mutex.queue }) parked_until refl (λ x. cc)
          h)
  finish_until-Held rang r h (inr (inr (inl (l, e)))) =
      rw e (move-Held s.mutex woken_until refl (λ x. cc) h)
  finish_until-Held rang r h (inr (inr (inr (l, e)))) =
      rw e (move-Held s.mutex outside refl (λ x. cc) h)

  rung-Held : s.place i ≡ parked_until → Held (alarmed i s (ring i s.mutex))
  rung-Held h = elim (Bool-cases (ring i s.mutex).0) [
    | inl c ↦
        rw c (move-Held (ring i s.mutex).1 rung (ring-locked i s.mutex) (λ x. cc) (λ x. cc (x, h)))
    | inr c ↦ rw c (
        move-Held (ring i s.mutex).1 (s.place i) (ring-locked i s.mutex) (λ x. cc (x, h))
          (λ x. cc (x, h)))
  ]

  -- The fiber leaves the mutex, and nobody holds it then.
  leave_Held :
      (q : List ℕ)
      → s.place i ≡ holding
      → Held (record {
        mutex = record { locked = false; queue = q };
        place = update s.place i outside;
      })
  leave_Held q h = record {
    one = λ a b x y. ground (arith, one a i);
    locked = λ a x. ground (arith, one a i);
    owner = λ x. cc;
  }

  pass_Held :
      (f : ℕ) (q : List ℕ)
      → s.place i ≡ holding
      → let p = update s.place i outside in
        Held (record {
          mutex = record { locked = false; queue = q };
          place = update p f (woken_in (p f));
        })
  pass_Held f q h = record {
    one = λ a b x y. ground (arith, one a i, woken_in-holding (update s.place i outside f));
    locked = λ a x. ground (arith, one a i, woken_in-holding (update s.place i outside f));
    owner = λ x. cc;
  }

  unlock-Held : s.place i ≡ holding → Held (let_go i s (unlock s.mutex))
  unlock-Held h = elim (List-cases s.mutex.queue) [
    | inl e ↦ rw (unlock_alone s.mutex e) (leave_Held [] h)
    | inr (f, q, e) ↦ rw (unlock_queued s.mutex f q e) (pass_Held f q h)
  ]

-- The place of a fiber that an event asks for.
not_holding : (p q : Place) → is_at p q ≡ true → q ≢ holding → p ≢ holding
not_holding p q h n e = n (sym (is_at-eq p q h) ∙ e)

step-Held : (s : System) (e : Event) → IsOwn s e → Held s → Held (step s e)
unfolding step
step-Held s (locks i) o held = elim (Bool-cases (is_at (s.place i) outside)) [
  | inl h ↦ rw h (
      finish-Held held i (lock i s.mutex) (not_holding (s.place i) outside h (λ x. cc))
        (lock-Ends i s.mutex))
  | inr h ↦ rw h held
]
step-Held s (retries i) o held = elim (Bool-cases (is_at (s.place i) woken)) [
  | inl h ↦ rw h (
      finish-Held held i (lock i s.mutex) (not_holding (s.place i) woken h (λ x. cc))
        (lock-Ends i s.mutex))
  | inr h ↦ rw h held
]
step-Held s (tries i) o held = elim (Bool-cases (is_at (s.place i) outside)) [
  | inl h ↦ rw h (
      finish-Held held i (trylock s.mutex) (not_holding (s.place i) outside h (λ x. cc))
        (trylock-Ends i s.mutex))
  | inr h ↦ rw h held
]
step-Held s (tries_until i timeout now) o held = elim (Bool-cases (is_at (s.place i) outside)) [
  | inl h ↦ rw h (
      finish_until-Held held i false (trylock_until i timeout now s.mutex)
        (not_holding (s.place i) outside h (λ x. cc)) (trylock_until-Ends i timeout now s.mutex))
  | inr h ↦ rw h held
]
step-Held s (retries_until i timeout now) o held = elim (Bool-cases (is_at (s.place i) rung)) [
  | inl h ↦ rw h (
      finish_until-Held held i true (trylock_again true i timeout now s.mutex)
        (not_holding (s.place i) rung h (λ x. cc)) (trylock_again-Ends true i timeout now s.mutex))
  | inr h ↦ elim (Bool-cases (is_at (s.place i) woken_until)) [
    | inl k ↦
        rw (h, k)
          (finish_until-Held held i false (trylock_again false i timeout now s.mutex)
            (not_holding (s.place i) woken_until k (λ x. cc))
            (trylock_again-Ends false i timeout now s.mutex))
    | inr k ↦ rw (h, k) held
  ]
]
step-Held s (rings i) o held = elim (Bool-cases (is_at (s.place i) parked_until)) [
  | inl h ↦ rw h (rung-Held held i (is_at-eq (s.place i) parked_until h))
  | inr h ↦ rw h held
]
step-Held s (unlocks i) o held = rw o (unlock-Held held i o)

run-Held : (s : System) (es : List Event) → AllOwn s es → Held s → Held (run s es)
unfolding run
run-Held s [] o held = held
run-Held s (e ∷ es) o held = run-Held (step s e) es o.1 (step-Held s e o.0 held)

-- After any history of lock(), trylock() and trylock(Timestamp) calls, of wakeups and alarms,
-- and of unlock() calls by no fiber but the one that holds the mutex, either the mutex is not
-- locked and no fiber holds it, or it is locked and exactly one fiber holds it.
pub mutual_exclusion :
    (es : List Event)
    → AllOwn start es
    → (((run start es).mutex.locked ≡ false) × ((j : ℕ) → (run start es).place j ≢ holding))
      ⊎ (((run start es).mutex.locked ≡ true)
          × ((i : ℕ) × ((run start es).place i ≡ holding)
              × ((j : ℕ) → (j ≡ i) ⊎ ((run start es).place j ≢ holding))))
mutual_exclusion es o = elim (Bool-cases (run start es).mutex.locked) [
  | inl l ↦
      let (i, h) = held.owner l in
      inr (
        l,
        (
          i,
          h,
          λ j. elim (Bool-cases (is_at ((run start es).place j) holding)) [
            | inl y ↦ inl (held.one j i (is_at-eq ((run start es).place j) holding y) h)
            | inr n ↦ inr (λ e. cc (n, ap-is_at e))
          ],
        ),
      )
  | inr u ↦ inl (u, λ j e. cc (held.locked j e, u))
]
  where
    held : Held (run start es)
    held = run-Held start es o start-Held

    ap-is_at : {p : Place} → p ≡ holding → is_at p holding ≡ true
    ap-is_at e = rw e refl

round_spins :
    (f : ℕ) (timeout now : Timestamp) (m : Mutex)
    → m.locked ≡ true
    → Stamp.le timeout now ≡ true
    → trylock_until f timeout now m ≡ (spins, m)
unfolding trylock_until
round_spins f timeout now m l h = ground arith

-- While the mutex is locked and every reading of the clock is at or past the timeout, the loop
-- of trylock(Timestamp) goes round without an end: it neither returns nor blocks, for as many
-- rounds as there are readings.
pub trylock_spins :
    (f : ℕ) (timeout : Timestamp) (nows : List Timestamp) (m : Mutex)
    → m.locked ≡ true
    → All (λ now. Stamp.le timeout now ≡ true) nows
    → trylock_loop f timeout nows m ≡ (spins, m)
unfolding trylock_loop
trylock_spins f timeout [] m l h = refl
trylock_spins f timeout (now ∷ nows) m l h =
    rw (round_spins f timeout now m l h.0, trylock_loop)
      (rw (round_spins f timeout now m l h.0) (trylock_spins f timeout nows m l h.1))
