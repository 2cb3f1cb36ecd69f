-- ===== src/Fiber/Machine.antt =====
-- include/libzth/fiber.h: the state machine of a fiber under nap(), wakeup(), suspend(), resume().
use zth.Base.{◌≡◌, ◌⊎◌, ◌≢◌, arith, List, [], ◌∷◌}
use zth.Time.Stamp.{Timestamp}
use zth.Fiber.{
  Fiber, State, uninitialized, new, ready, running, waiting, suspended, dead, nap, wakeup, suspend,
  resume,
}

-- The calls that others make on a fiber.
pub data Event : Type 0 where
  naps : Timestamp → Event
  wakes suspends resumes : Event

unfoldable pub step : Event → Fiber → Fiber
step (naps until) f = nap until f
step wakes f = wakeup f
step suspends f = suspend f
step resumes f = resume f

unfoldable pub run : List Event → Fiber → Fiber
run [] f = f
run (e ∷ es) f = run es (step e f)

-- What m_stateNext holds in each state.
abbrev pub Fits : State → State → Type 0
Fits new next = (next ≡ ready) ⊎ (next ≡ waiting)
Fits ready next = next ≡ ready
Fits running next = next ≡ ready
Fits waiting next = next ≡ ready
Fits suspended next = (next ≡ ready) ⊎ (next ≡ new)
Fits uninitialized next = Unit
Fits dead next = Unit

abbrev pub IsSound : Fiber → Type 0
IsSound f = Fits f.state f.state_next

-- The two calls that lose a fiber: suspend() of one that waits, nap() of one that is suspended.
abbrev pub Allowed : Event → Fiber → Type 0
Allowed suspends f = f.state ≢ waiting
Allowed (naps until) f = f.state ≢ suspended
Allowed wakes f = Unit
Allowed resumes f = Unit

-- Every call of a history is allowed where it is made.
abbrev pub AllAllowed : List Event → Fiber → Type 0
AllAllowed [] f = Unit
AllAllowed (e ∷ es) f = Allowed e f × AllAllowed es (step e f)

step-IsSound : (e : Event) (f : Fiber) → Allowed e f → IsSound f → IsSound (step e f)
unfolding step nap wakeup suspend resume
step-IsSound (naps until) f a s = ground arith
step-IsSound wakes f a s = ground arith
step-IsSound suspends f a s = ground arith
step-IsSound resumes f a s = ground arith

-- A history of nap(), wakeup(), suspend() and resume() keeps a fiber sound, so that its next
-- state fits its state, if no call suspends it while it waits or puts it to sleep while it is
-- suspended.
pub run-IsSound : (es : List Event) (f : Fiber) → AllAllowed es f → IsSound f → IsSound (run es f)
unfolding run
run-IsSound [] f a s = s
run-IsSound (e ∷ es) f a s = run-IsSound es (step e f) a.1 (step-IsSound e f a.0 s)

-- A sound fiber that waits after a history of calls, none of which suspends it while it waits or
-- puts it to sleep while it is suspended, is ready after a wakeup, and not changed otherwise.
pub wakeup_ready :
    (es : List Event) (f : Fiber)
    → AllAllowed es f
    → IsSound f
    → (run es f).state ≡ waiting
    → wakeup (run es f) ≡ record (run es f) { state = ready }
unfolding wakeup
wakeup_ready es f a s w = ground (arith, run-IsSound es f a s)

-- nap() of a ready or running fiber, and then wakeup(), leave it ready, with the end of the nap
-- as its m_stateEnd.
pub wakeup-nap :
    (f : Fiber) (until : Timestamp)
    → (f.state ≡ ready) ⊎ (f.state ≡ running)
    → wakeup (nap until f) ≡ record f { state = ready; state_next = ready; state_end = until }
unfolding wakeup nap
wakeup-nap f until h = ground arith

-- suspend() of a new, ready or running fiber, and then resume(), leave it due to become ready: a
-- new one is still new, and others are ready.
pub resume-suspend :
    (f : Fiber)
    → (f.state ≡ new) ⊎ ((f.state ≡ ready) ⊎ (f.state ≡ running))
    → (resume (suspend f)
        ≡ record f { state = elim f.state [ new ↦ new | _ ↦ ready ]; state_next = ready })
unfolding resume suspend
resume-suspend f h = ground arith

abbrev IsStuck : Fiber → Type 0
IsStuck f = (f.state ≡ waiting) × (f.state_next ≡ waiting)

step-IsStuck : (e : Event) (f : Fiber) → IsStuck f → IsStuck (step e f)
unfolding step nap wakeup suspend resume
step-IsStuck (naps until) f s = ground arith
step-IsStuck wakes f s = ground arith
step-IsStuck suspends f s = ground arith
step-IsStuck resumes f s = ground arith

run-IsStuck : (es : List Event) (f : Fiber) → IsStuck f → IsStuck (run es f)
unfolding run
run-IsStuck [] f s = s
run-IsStuck (e ∷ es) f s = run-IsStuck es (step e f) (step-IsStuck e f s)

suspend_waiting_stuck :
    (f : Fiber) (es : List Event) → f.state ≡ waiting → (run es (suspend f)).state ≡ waiting
unfolding suspend
suspend_waiting_stuck f es w = (run-IsStuck es _ (ground arith)).0

nap_suspended_stuck :
    (f : Fiber) (until : Timestamp) (es : List Event)
    → f.state ≡ suspended
    → (run es (resume (nap until f))).state ≡ waiting
unfolding resume nap
nap_suspended_stuck f until es w = (run-IsStuck es _ (ground arith)).0

-- A fiber that is suspended while it waits, and a fiber that is put to sleep while it is
-- suspended and then resumed, stay waiting, whatever nap(), wakeup(), suspend() and resume() are
-- called on them after that.
pub both_stuck :
    (es : List Event) (f g : Fiber) (until : Timestamp)
    → f.state ≡ waiting
    → g.state ≡ suspended
    → ((run es (suspend f)).state ≡ waiting) × ((run es (resume (nap until g))).state ≡ waiting)
both_stuck es f g until w s = (suspend_waiting_stuck f es w, nap_suspended_stuck g until es s)
