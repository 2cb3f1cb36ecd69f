-- ===== src/Sync/Signal/History.antt =====
-- include/libzth/sync.h: what a Signal remembers over a history of calls.
use zth.Base.{
  ℕ, ◌≡◌, ◌≢◌, ◌⊎◌, ◌≤◌, ◌+◌, ◌++◌, refl, Bool, true, false, List, [], ◌∷◌, arith, All, List-cases,
  inl, inr,
}
use zth.Base.Int.{ℤ, pos, negsuc, pos_part, neg_part, ◌+ℤ◌, ◌-ℤ◌, +ℤ_parts, -ℤ_parts, one_part}
use zth.Time.Stamp.{Timestamp}
use zth.Time.Stamp
use zth.Sync.Queue.{unblock, contains, unblock_all_lem}
use zth.Sync.Signal.{
  Signal, yields, continues, wait, wait_end, wait_until, wait_until_end, ring, store, signal,
  signal_all, reset,
}

-- The pieces of the calls, in the order in which they happen.
pub data Event : Type 0 where
  waits : ℕ → Event
  waits_until : ℕ → Timestamp → Timestamp → Event
  ends : Event
  ends_until : Bool → Event
  rings : ℕ → Event
  signals : Bool → Bool → Event
  signals_all : Bool → Event
  resets : Event

unfoldable pub step : Signal → Event → Signal
step s (waits f) = (wait f s).1
step s (waits_until f timeout now) = (wait_until f timeout now s).1
step s ends = wait_end s
step s (ends_until rang) = (wait_until_end rang s).1
step s (rings f) = (ring f s).0
step s (signals queue every) = (signal queue every s).0
step s (signals_all queue) = (signal_all queue s).0
step s resets = reset s

unfoldable pub run : Signal → List Event → Signal
run s [] = s
run s (e ∷ es) = run (step s e) es

abbrev pub start : Signal
start = record { signalled = pos 0; queue = [] }

-- The fibers that a call wakes, and those of a series of calls, in order.
abbrev pub woken : Signal → Event → List ℕ
woken s (rings f) = (ring f s).1
woken s (signals queue every) = (signal queue every s).1
woken s (signals_all queue) = (signal_all queue s).1
woken s _ = []

abbrev pub all_woken : Signal → List Event → List ℕ
all_woken s [] = []
all_woken s (e ∷ es) = woken s e ++ all_woken (step s e) es

-- How many calls of signal() there are.
abbrev pub signal_calls : List Event → ℕ
signal_calls [] = 0
signal_calls (signals queue every ∷ es) = 1 + signal_calls es
signal_calls (_ ∷ es) = signal_calls es

-- Nothing is stored while a fiber waits, neither signals nor a signalAll(true).
abbrev pub Inv : Signal → Type 0
Inv s = (s.queue ≡ []) ⊎ (s.signalled ≡ pos 0)

unblock_nil : (f : ℕ) → (unblock f []).1.queue ≡ []
unfolding unblock contains
unblock_nil f = refl

step-Inv : (s : Signal) (e : Event) → Inv s → Inv (step s e)
unfolding step wait wait_end wait_until wait_until_end ring reset
step-Inv s (waits f) v = ground arith
step-Inv s (waits_until f timeout now) v = ground arith
step-Inv s ends v = ground (arith, -ℤ_parts s.signalled (pos 1))
step-Inv s (ends_until rang) v = ground (arith, -ℤ_parts s.signalled (pos 1))
step-Inv s (rings f) v = elim v [ inl e ↦ inl (rw e (unblock_nil f)) | inr z ↦ inr z ]
step-Inv s (signals queue every) v = elim (List-cases s.queue) [
  | inl e ↦ inl (unfold signal in ground arith)
  | inr (x, q, e) ↦ unfold signal in ground arith
]
step-Inv s (signals_all queue) v = inl (unfold signal_all in rw (unblock_all_lem s.queue))
step-Inv s resets v = inr refl

pub run-Inv : (s : Signal) (es : List Event) → Inv s → Inv (run s es)
unfolding run
run-Inv s [] v = v
run-Inv s (e ∷ es) v = run-Inv (step s e) es (step-Inv s e v)

-- No call of signal() asks for every signal to be stored.
abbrev pub IsPlain : Event → Type 0
IsPlain (signals queue every) = every ≡ false
IsPlain (waits f) = Unit
IsPlain (waits_until f timeout now) = Unit
IsPlain ends = Unit
IsPlain (ends_until rang) = Unit
IsPlain (rings f) = Unit
IsPlain (signals_all queue) = Unit
IsPlain resets = Unit

abbrev InRange : ℤ → Type 0
InRange n = (pos_part n ≤ 1) × (neg_part n ≤ 1)

store-InRange : (queue : Bool) (n : ℤ) → InRange n → InRange (store queue false n)
unfolding store
store-InRange queue n r = ground (arith, +ℤ_parts n (pos 1), one_part (n +ℤ pos 1))

lower-InRange : (s : Signal) → InRange s.signalled → InRange (wait_end s).signalled
unfolding wait_end
lower-InRange s r = ground (arith, -ℤ_parts s.signalled (pos 1), one_part (s.signalled -ℤ pos 1))

step-InRange :
    (s : Signal) (e : Event) → IsPlain e → InRange s.signalled → InRange (step s e).signalled
unfolding step wait wait_until wait_until_end ring reset signal signal_all
step-InRange s (waits f) p r = ground arith
step-InRange s (waits_until f timeout now) p r = ground arith
step-InRange s ends p r = lower-InRange s r
step-InRange s (ends_until rang) p r = ground (arith, lower-InRange s r)
step-InRange s (rings f) p r = r
step-InRange s (signals queue every) p r = ground (arith, store-InRange queue s.signalled r)
step-InRange s (signals_all queue) p r = ground arith
step-InRange s resets p r = omega arith

run-InRange :
    (s : Signal) (es : List Event)
    → All IsPlain es
    → InRange s.signalled
    → InRange (run s es).signalled
unfolding run
run-InRange s [] p r = r
run-InRange s (e ∷ es) p r = run-InRange (step s e) es p.1 (step-InRange s e p.0 r)

-- After any history of a Signal in which no signal() asks to store every signal, m_signalled is
-- between -1 and 1.
pub at_most_one :
    (es : List Event)
    → All IsPlain es
    → (pos_part (run start es).signalled ≤ 1) × (neg_part (run start es).signalled ≤ 1)
at_most_one es p = run-InRange start es p (omega arith)

-- The calls but reset().
abbrev pub IsKeeping : Event → Type 0
IsKeeping e = e ≢ resets

step-signalled :
    (s : Signal) (e : Event)
    → IsKeeping e
    → s.signalled ≡ negsuc 0
    → (step s e).signalled ≡ negsuc 0
unfolding step wait wait_end wait_until wait_until_end ring signal signal_all store
step-signalled s (waits f) k r = ground arith
step-signalled s (waits_until f timeout now) k r = ground arith
step-signalled s ends k r = ground arith
step-signalled s (ends_until rang) k r = ground arith
step-signalled s (rings f) k r = r
step-signalled s (signals queue every) k r = ground arith
step-signalled s (signals_all queue) k r = ground arith
step-signalled s resets k r = absurd (k refl)

run-signalled :
    (s : Signal) (es : List Event)
    → All IsKeeping es
    → s.signalled ≡ negsuc 0
    → (run s es).signalled ≡ negsuc 0
unfolding run
run-signalled s [] k r = r
run-signalled s (e ∷ es) k r = run-signalled (step s e) es k.1 (step-signalled s e k.0 r)

-- After signalAll(true), which empties the queue, no wait blocks: after any history without
-- reset(), wait() and wait(Timestamp) just yield.
pub signal_all_lasts :
    (s : Signal) (es : List Event) (f : ℕ) (timeout now : Timestamp)
    → All IsKeeping es
    → let t = run (signal_all true s).0 es in
      ((signal_all true s).0.queue ≡ [])
      × ((signal_all true s).1 ≡ s.queue)
      × (wait f t ≡ (yields, t))
      × (wait_until f timeout now t ≡ (yields, t))
signal_all_lasts s es f timeout now k = (
  unfold signal_all in rw (unblock_all_lem s.queue),
  unfold signal_all in rw (unblock_all_lem s.queue),
  unfold wait in ground (arith, lasting),
  unfold wait_until in ground (arith, lasting),
)
  where
    lasting : (run (signal_all true s).0 es).signalled ≡ negsuc 0
    lasting = run-signalled (signal_all true s).0 es k (unfold signal_all in refl)

-- A wait(Timestamp) whose time has come on a Signal without a signal does not block, and it
-- returns true as for a signal, with the Signal as it was.
pub expired_wait_succeeds :
    (f : ℕ) (timeout now : Timestamp) (s : Signal)
    → s.signalled ≡ pos 0
    → Stamp.le timeout now ≡ true
    → (wait_until f timeout now s ≡ (continues, s)) × (wait_until_end false s ≡ (true, s))
unfolding wait_until wait_until_end wait_end
expired_wait_succeeds f timeout now s e h = (ground arith, ground arith)
