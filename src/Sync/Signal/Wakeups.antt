-- ===== src/Sync/Signal/Wakeups.antt =====
-- include/libzth/sync.h: which fibers the signals of a Signal wake.
use zth.Base.{
  ℕ, suc, ◌+◌, ◌-◌, ◌<◌, ◌≤◌, ◌≡◌, ◌≢◌, ◌⊎◌, inl, inr, refl, sym, subst, Bool, Bool-cases, true,
  false, List, [], ◌∷◌, ◌++◌, arith, List-cases, if◌then◌else◌, ◌==◌,
}
use zth.Base.Int.{pos, eqb_ℤ, ltb_ℤ}
use zth.Time.Stamp.{Timestamp}
use zth.Time.Stamp
use zth.Sync.Queue.{enqueue, contains, erase, unblock, unblock_first, unblock_all_lem}
use zth.Sync.Signal.{
  Signal, wait, wait_end, wait_until, wait_until_end, ring, signal, signal_all, reset,
}
use zth.Sync.Signal.History.{
  Event, waits, waits_until, ends, ends_until, rings, signals, signals_all, resets, step, run,
  start, woken, all_woken, signal_calls, run-Inv,
}

-- How many fibers are before this one in a queue.
abbrev pub ahead : ℕ → List ℕ → ℕ
ahead f [] = 0
ahead f (x ∷ xs) = let rest = ahead f xs in if x == f then 0 else 1 + rest

-- The fiber is in the queue, with at most n before it.
abbrev IsQueued : ℕ → ℕ → List ℕ → Type 0
IsQueued f n q = (contains f q ≡ true) × (ahead f q ≤ n)

enqueue-IsQueued : (f g n : ℕ) (q : List ℕ) → IsQueued f n q → IsQueued f n (enqueue g q)
unfolding contains
enqueue-IsQueued f g n [] h = cc (h.0)
enqueue-IsQueued f g n (x ∷ xs) h = elim (Bool-cases (x == f)) [
  | inl e ↦ rw e (refl, omega arith)
  | inr e ↦
      let rest = enqueue-IsQueued f g (ahead f xs) xs (rw e at h.0, omega arith) in
      rw e (rest.0, ground (arith, h.1, e, rest.1))
]

erase-IsQueued : (f g n : ℕ) (q : List ℕ) → f ≢ g → IsQueued f n q → IsQueued f n (erase g q)
unfolding contains erase
erase-IsQueued f g n [] d h = h
erase-IsQueued f g n (x ∷ xs) d h = elim (Bool-cases (x == g)) [
  | inl e ↦ rw e (ground (arith, h.0, d, e), ground (arith, h.1, d, e))
  | inr e ↦ rw e (elim (Bool-cases (x == f)) [
    | inl i ↦ rw i (refl, omega arith)
    | inr i ↦
        let rest = erase-IsQueued f g (ahead f xs) xs d (rw i at h.0, omega arith) in
        rw i (rest.0, ground (arith, h.1, i, rest.1))
  ])
]

contains_left : (f : ℕ) (xs ys : List ℕ) → contains f xs ≡ true → contains f (xs ++ ys) ≡ true
unfolding contains
contains_left f [] ys h = cc h
contains_left f (x ∷ xs) ys h = ground (arith, contains_left f xs ys)

contains_right : (f : ℕ) (xs ys : List ℕ) → contains f ys ≡ true → contains f (xs ++ ys) ≡ true
unfolding contains
contains_right f [] ys h = h
contains_right f (x ∷ xs) ys h = ground (arith, contains_right f xs ys h)

-- The fiber was woken, or is in the queue still.
abbrev Goes : ℕ → ℕ → Signal × List ℕ → Type 0
Goes f n r = (contains f r.1 ≡ true) ⊎ IsQueued f n r.0.queue

ring_hit :
    (g : ℕ) (s : Signal)
    → contains g s.queue ≡ true
    → ring g s ≡ (record s { queue = erase g s.queue }, g ∷ [])
unfolding ring unblock
ring_hit g s e = rw e refl

ring_miss : (g : ℕ) (s : Signal) → contains g s.queue ≡ false → ring g s ≡ (s, [])
unfolding ring unblock
ring_miss g s e = rw e refl

ring-Goes : (f g n : ℕ) (s : Signal) → IsQueued f n s.queue → Goes f n (ring g s)
ring-Goes f g n s h = elim (Bool-cases (contains g s.queue)) [
  | inl e ↦ subst (Goes f n) (sym (ring_hit g s e)) (elim (Bool-cases (g == f)) [
    | inl i ↦ inl (unfold contains in rw i refl)
    | inr i ↦ inr (erase-IsQueued f g n s.queue (λ y. ground (arith, y, i)) h)
  ])
  | inr e ↦ subst (Goes f n) (sym (ring_miss g s e)) (inr h)
]

wait-IsQueued : (f g n : ℕ) (s : Signal) → IsQueued f n s.queue → IsQueued f n (wait g s).1.queue
unfolding wait
wait-IsQueued f g n s h = elim (Bool-cases (eqb_ℤ s.signalled (pos 0))) [
  | inl e ↦ rw e (enqueue-IsQueued f g n s.queue h)
  | inr e ↦ rw e h
]

wait_until-IsQueued :
    (f g n : ℕ) (timeout now : Timestamp) (s : Signal)
    → IsQueued f n s.queue
    → IsQueued f n (wait_until g timeout now s).1.queue
unfolding wait_until
wait_until-IsQueued f g n timeout now s h = elim (Bool-cases (eqb_ℤ s.signalled (pos 0))) [
  | inl e ↦ elim (Bool-cases (Stamp.le timeout now)) [
    | inl t ↦ rw (e, t) h
    | inr t ↦ rw (e, t) (enqueue-IsQueued f g n s.queue h)
  ]
  | inr e ↦ rw e h
]

wait_end_queue : (s : Signal) → (wait_end s).queue ≡ s.queue
unfolding wait_end
wait_end_queue s = elim (Bool-cases (ltb_ℤ (pos 0) s.signalled)) [
  | inl e ↦ rw e refl
  | inr e ↦ rw e refl
]

wait_until_end_queue : (rang : Bool) (s : Signal) → (wait_until_end rang s).1.queue ≡ s.queue
unfolding wait_until_end
wait_until_end_queue true s = refl
wait_until_end_queue false s = wait_end_queue s

signal_all_woken : (queue : Bool) (s : Signal) → (signal_all queue s).1 ≡ s.queue
unfolding signal_all
signal_all_woken queue s = rw (unblock_all_lem s.queue) refl

other-Goes :
    (f n : ℕ) (s : Signal) (e : Event)
    → signal_calls (e ∷ []) ≡ 0
    → IsQueued f n s.queue
    → Goes f n (step s e, woken s e)
unfolding step reset
other-Goes f n s (waits g) c h = inr (wait-IsQueued f g n s h)
other-Goes f n s (waits_until g timeout now) c h = inr (wait_until-IsQueued f g n timeout now s h)
other-Goes f n s ends c h = inr (subst (IsQueued f n) (sym (wait_end_queue s)) h)
other-Goes f n s (ends_until rang) c h =
    inr (subst (IsQueued f n) (sym (wait_until_end_queue rang s)) h)
other-Goes f n s (rings g) c h = ring-Goes f g n s h
other-Goes f n s (signals queue every) c h = absurd (ground (arith, c))
other-Goes f n s (signals_all queue) c h =
    inl (subst (λ (l : List ℕ). contains f l ≡ true) (sym (signal_all_woken queue s)) h.0)
other-Goes f n s resets c h = inr h

-- signal() takes the first from the queue.
signal_goes :
    (f n : ℕ) (queue every : Bool) (s : Signal)
    → IsQueued f n s.queue
    → (contains f (woken s (signals queue every)) ≡ true)
      ⊎ ((m : ℕ) × (n ≡ suc m) × IsQueued f m (step s (signals queue every)).queue)
unfolding step signal unblock_first contains
signal_goes f n queue every s h = elim (List-cases s.queue) [
  | inl e ↦ absurd (cc (rw e at h.0))
  | inr (x, q, e) ↦ rw e (elim (Bool-cases (x == f)) [
    | inl i ↦ inl (rw i refl)
    | inr i ↦
        let (c, l) = rw e at h in
        inr (n - 1, ground (arith, l, i), (rw i at c, ground (arith, l, i)))
  ])
]

wakes :
    (f n : ℕ) (s : Signal) (es : List Event)
    → IsQueued f n s.queue
    → n < signal_calls es
    → contains f (all_woken s es) ≡ true
wakes f n s [] h l = absurd (omega (arith, l))
wakes f n s (signals queue every ∷ es) h l = elim (signal_goes f n queue every s h) [
  | inl w ↦ contains_left f (woken s (signals queue every)) _ w
  | inr (m, p, r) ↦
      contains_right f (woken s (signals queue every)) _
        (wakes f m (step s (signals queue every)) es r (omega (arith, l, p)))
]
wakes f n s (e ∷ es) h l = elim (other-Goes f n s e refl h) [
  | inl w ↦ contains_left f (woken s e) _ w
  | inr r ↦ contains_right f (woken s e) _ (wakes f n (step s e) es r l)
]

-- After any history of a Signal, while a fiber is in its queue nothing is stored in m_signalled,
-- and whatever calls and alarms follow, the fiber has been woken once signal() was called more
-- often than there are fibers before it in the queue.
pub signals_wake :
    (es fs : List Event) (f : ℕ)
    → let s = run start es in
      contains f s.queue ≡ true
      → ahead f s.queue < signal_calls fs
      → (s.signalled ≡ pos 0) × (contains f (all_woken s fs) ≡ true)
signals_wake es fs f c l =
    let s = run start es in
    (
      elim (run-Inv start es (inl refl)) [
        | inl e ↦ absurd (unfold contains in cc (rw e at c))
        | inr z ↦ z
      ],
      wakes f (ahead f s.queue) s fs (c, omega arith) l,
    )
