-- ===== src/Perf/History.antt =====
-- src/perf.cpp: the buffer of events through any series of events and turns of the Worker.
use zth.Base.{
  ℕ, suc, ◌-◌, ◌<◌, ◌≤◌, ◌^◌, ◌≡◌, refl, ap, ◌∙◌, Bool, Bool-cases, inl, inr, true, false, not,
  ◌&&◌, ◌||◌, List, [], ◌∷◌, Option, some, ltb, leb, ◌==◌, if◌then◌else◌, length, length-append,
  All, All-append, ◌>>=◌, arith,
}
use zth.Fiber.{State, new, suspended, is_state, ready, running, eagain}
use zth.Time.Stamp.{Timestamp}
use zth.Perf.{
  Event, fiber_state, message, Vcd, Wrote, wrote, failed, fault, result_of, eio, write_events,
  process_events,
}
use zth.Perf.Ids.{Good}
use zth.Perf.Safety.{Safe, Fine, write_events-Safe}
use zth.Perf.Buffer.{
  PerfFiber, buffer_size, threshold, switched, switched_back, cleared, ignoring, push,
  emergency_text, process_event_buffer, process, emergency, flush_event_buffer, put_event,
  resume_fiber, perf_event, resumed,
}

-- The events are fine, and no more than n.
abbrev pub Holds : ℕ → PerfFiber → Type 0
Holds n p =
    All Fine p.buffer
    × Good p.files.ids
    × (p.fiber < 2 ^ 64)
    × (p.current < 2 ^ 64)
    × (length p.buffer ≤ n)

-- There is a result, which holds no more than n.
abbrev Gives : ℕ → Option PerfFiber → Type 0
Gives n r = (q : PerfFiber) × (r ≡ some q) × Holds n q

push-Holds : (n : ℕ) (e : Event) (p : PerfFiber) → Fine e → Holds n p → Holds (suc n) (push e p)
push-Holds n e p f (a, g, i, j, l) = (
  All-append Fine p.buffer (e ∷ []) a (f, tt),
  g,
  i,
  j,
  omega (arith, l, length-append p.buffer (e ∷ [])),
)

weaken-Holds : (n m : ℕ) (p : PerfFiber) → n ≤ m → Holds n p → Holds m p
weaken-Holds n m p h (a, g, i, j, l) = (a, g, i, j, omega (arith, h, l))

result_of-Good :
    (r : Wrote) → Safe r → (res : ℕ) × (w : Vcd) × (result_of r ≡ some (res, w)) × Good w.ids
result_of-Good (wrote v) s = (0, v, refl, s)
result_of-Good (failed res v) s = (if res == 0 then eio else res, v, refl, s)
result_of-Good fault s = absurd s

if-Gives :
    (n : ℕ) (b : Bool) (x y : Option PerfFiber)
    → (b ≡ true → Gives n x)
    → (b ≡ false → Gives n y)
    → Gives n (if b then x else y)
if-Gives n true x y f g = f refl
if-Gives n false x y f g = g refl

resumed-Holds : (p : PerfFiber) → Holds 124 p → Holds 124 (resumed p)
resumed-Holds p h = elim (Bool-cases (is_state p.state new)) [ inl e ↦ rw e h | inr e ↦ rw e h ]

then-Gives :
    (f : PerfFiber → PerfFiber)
    → ((p : PerfFiber) → Holds 124 p → Holds 124 (f p))
    → {r : Option PerfFiber} → Gives 124 r
    → Gives 124 (r >>= (λ q. some (f q)))
then-Gives f g (q, e, h) = (f q, ap (λ (r : Option PerfFiber). r >>= (λ q. some (f q))) e, g q h)

switched-Holds : (t : Timestamp) (p : PerfFiber) → Holds 125 p → Holds 128 (switched t p)
switched-Holds t p h =
    let e = message t p.fiber (some emergency_text) in
    let f = fiber_state t p.current ready in
    let g = fiber_state t p.fiber running in
    push-Holds 127 g (push f (push e p)) h.2
      (push-Holds 126 f (push e p) h.3 (push-Holds 125 e p (h.2, omega arith) h))

switched_back-Holds : (u : Timestamp) (p : PerfFiber) → Holds 0 p → Holds 124 (switched_back u p)
switched_back-Holds u p h =
    let e = fiber_state u p.fiber p.state in
    let f = fiber_state u p.current p.current_state in
    weaken-Holds 2 124 (switched_back u p) (omega arith)
      (push-Holds 1 f (push e p) h.3 (push-Holds 0 e p h.2 h))

weakened : {r : Option PerfFiber} → Gives 0 r → Gives 124 r
weakened (q, e, h) = (q, e, weaken-Holds 0 124 q (omega arith) h)

module _ (refused : ℕ → Option ℕ) (start : Timestamp) where
  process_events-Good :
      (is_open : Bool) (es : List Event) (v : Vcd)
      → All Fine es
      → Good v.ids
      → (res : ℕ) × (w : Vcd) × (process_events refused start es is_open v ≡ some (res, w))
        × Good w.ids
  unfolding process_events
  process_events-Good false es v f g = (eagain, v, refl, g)
  process_events-Good true es v f g =
      result_of-Good (write_events refused start es v) (write_events-Safe refused start es v f g)

  process-Holds : (n : ℕ) (p : PerfFiber) → Holds n p → Gives 0 (process refused start p)
  unfolding process_event_buffer
  process-Holds n p (a, g, i, j, l) =
      let (res, w, e, k) = process_events-Good p.is_open p.buffer p.files a g in
      (
        record p { buffer = []; files = w },
        ap (λ r. ignoring (cleared p r)) e,
        (tt, k, i, j, omega arith),
      )

  emergency-Holds :
      (t u : Timestamp) (p : PerfFiber) → Holds 125 p → Gives 124 (emergency refused start t u p)
  unfolding emergency
  emergency-Holds t u p h =
      let (q, e, k) = process-Holds 128 (switched t p) (switched-Holds t p h) in
      (
        switched_back u q,
        ap (λ (r : Option PerfFiber). r >>= (λ q. some (switched_back u q))) e,
        switched_back-Holds u q k,
      )

  flush-Holds :
      (resume : PerfFiber → Option PerfFiber) (t u : Timestamp) (p : PerfFiber)
      → ((q : PerfFiber) → Holds 124 q → Gives 124 (resume q))
      → Holds 125 p
      → Gives 124 (flush_event_buffer refused start resume t u p)
  unfolding flush_event_buffer
  flush-Holds resume t u p r h =
      let spare_room = buffer_size - length p.buffer in
      let done = weakened (process-Holds 125 p h) in
      if-Gives 124 (p.fiber == 0 || p.fiber == p.current || ltb spare_room 3) _ _ (λ e. done)
        (λ e.
          if-Gives 124 (ltb 3 spare_room) _ _ (λ k. r p (h.0, h.1, h.2, h.3, ground (arith, k)))
            (λ k. if-Gives 124 (p.current == 0) _ _ (λ m. done) (λ m. emergency-Holds t u p h)))

  put_event-Holds :
      (resume : PerfFiber → Option PerfFiber) (t u : Timestamp) (e : Event) (p : PerfFiber)
      → ((q : PerfFiber) → Holds 124 q → Gives 124 (resume q))
      → Fine e
      → Holds 124 p
      → Gives 124 (put_event refused start resume t u e p)
  unfolding put_event
  put_event-Holds resume t u e p r f h =
      let q = push e p in
      let k = push-Holds 124 e p f h in
      if-Gives 124 (ltb buffer_size (length q.buffer)) _ _ (λ c. absurd (ground (arith, c, k.4)))
        (λ c.
          if-Gives 124 (leb threshold (length q.buffer)) _ _ (λ d. flush-Holds resume t u q r k)
            (λ d. (q, refl, (k.0, k.1, k.2, k.3, ground (arith, d)))))

  perf_event-Holds :
      (t u : Timestamp) (e : Event) (p : PerfFiber)
      → Fine e
      → Holds 124 p
      → Gives 124 (perf_event refused start t u e p)
  unfolding perf_event resume_fiber
  perf_event-Holds t u e p f h =
      put_event-Holds _ t u e p
        (λ q k.
          if-Gives 124 (is_state q.state suspended && not (is_state q.state_next suspended)) _ _
            (λ c. then-Gives resumed resumed-Holds (
              put_event-Holds _ t u (fiber_state t q.fiber q.state_next)
                (record q { state = q.state_next }) (λ w m. (w, refl, m)) k.2 k))
            (λ c. (q, refl, k)))
        f h

-- An event with the times its flush reads, processEventBuffer() in entry(), or a turn: the fiber of
-- PerfFiber with its state and next state, and the current fiber with its state.
pub data Step : Type 0 where
  posts : Timestamp → Timestamp → Event → Step
  processes : Step
  turns : ℕ → State → State → ℕ → State → Step

abbrev pub Fits : Step → Type 0
Fits (posts t u e) = Fine e
Fits processes = Unit
Fits (turns fiber s next current c) = (fiber < 2 ^ 64) × (current < 2 ^ 64)

-- No event, and no fiber yet.
abbrev pub fresh : Bool → PerfFiber
fresh is_open = record {
  buffer = [];
  files = record { vcd = []; vcdd = []; ids = []; calls = 0 };
  is_open = is_open;
  fiber = 0;
  state = new;
  state_next = ready;
  current = 0;
  current_state = new;
}

module _ (refused : ℕ → Option ℕ) (start : Timestamp) where
  abbrev pub apply : Step → PerfFiber → Option PerfFiber
  apply (posts t u e) p = perf_event refused start t u e p
  apply processes p = process refused start p
  apply (turns fiber s next current c) p = some (record p {
    fiber = fiber;
    state = s;
    state_next = next;
    current = current;
    current_state = c;
  })

  abbrev pub run : List Step → PerfFiber → Option PerfFiber
  run [] p = some p
  run (s ∷ ss) p = apply s p >>= run ss

  apply-Holds : (s : Step) (p : PerfFiber) → Fits s → Holds 124 p → Gives 124 (apply s p)
  apply-Holds (posts t u e) p f h = perf_event-Holds refused start t u e p f h
  apply-Holds processes p f h = weakened (process-Holds refused start 124 p h)
  apply-Holds (turns fiber s next current c) p (i, j) (a, g, k, m, l) = (
    record p { fiber = fiber; state = s; state_next = next; current = current; current_state = c },
    refl,
    (a, g, i, j, l),
  )

  run-Holds : (ss : List Step) (p : PerfFiber) → All Fits ss → Holds 124 p → Gives 124 (run ss p)
  run-Holds [] p f h = (p, refl, h)
  run-Holds (s ∷ ss) p f h =
      let (q, e, k) = apply-Holds s p f.0 h in
      let (w, r, m) = run-Holds ss q f.1 k in
      (w, ap (λ (o : Option PerfFiber). o >>= run ss) e ∙ r, m)

  -- After any series of perf_event(), turns of the worker and processEventBuffer() from the
  -- start, whichever calls of fprintf() fail, no assertion about the size of the buffer failed,
  -- nothing was read or written outside a string or buffer, the buffer has room for more than
  -- three events, and the identifiers are still those of their fibers. The numbers of fibers are
  -- of 64 bits, and no message is empty.
  pub run-Good :
      (is_open : Bool) (ss : List Step)
      → All Fits ss
      → (p : PerfFiber) × (run ss (fresh is_open) ≡ some p)
        × (length p.buffer ≤ 124)
        × Good p.files.ids
  run-Good is_open ss f =
      let (p, e, h) =
        run-Holds ss (fresh is_open) f (tt, tt, omega arith, omega arith, omega arith) in
      (p, e, h.4, h.1)
