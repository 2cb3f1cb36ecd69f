-- ===== src/Perf/Buffer.antt =====
-- src/perf.cpp and include/libzth/perf.h: the buffer of events and when PerfFiber writes it, with
-- performance events enabled and the buffer made. The capacity of the vector is what reserve() was
-- asked for. A failing zth_assert(), and a fault, is none. release() of an event frees its string,
-- which is left out.
use zth.Base.{
  ℕ, ◌-◌, Bool, not, ◌||◌, ◌&&◌, List, [], ◌∷◌, ◌++◌, Option, none, some, ltb, leb, ◌==◌,
  if◌then◌else◌, length, ◌>>=◌,
}
use zth.Fiber.{State, new, ready, running, suspended, is_state}
use zth.Time.Stamp.{Timestamp}
use zth.Perf.{Text, Event, fiber_state, message, Vcd, process_events}

-- Config::PerfEventBufferSize and PerfEventBufferThresholdToTriggerVCDWrite
abbrev pub buffer_size : ℕ
buffer_size = 128

abbrev pub threshold : ℕ
threshold = 64

-- The buffer, the files, whether they are open, the fiber of PerfFiber, or 0, its state, and the
-- current fiber of the Worker, or 0, and its state. `state_next` is m_stateNext of the fiber.
pub record PerfFiber : Type 0 where
  pub buffer : List Event
  pub files : Vcd
  pub is_open : Bool
  pub fiber : ℕ
  pub state : State
  pub state_next : State
  pub current : ℕ
  pub current_state : State

-- "Emerg flush"
abbrev pub emergency_text : Text
emergency_text = 69 ∷ 109 ∷ 101 ∷ 114 ∷ 103 ∷ 32 ∷ 102 ∷ 108 ∷ 117 ∷ 115 ∷ 104 ∷ []

abbrev pub push : Event → PerfFiber → PerfFiber
push e p = record p { buffer = p.buffer ++ e ∷ [] }

abbrev pub cleared : PerfFiber → Option (ℕ × Vcd) → Option (ℕ × PerfFiber)
cleared p none = none
cleared p (some (res, v)) = some (res, record p { buffer = []; files = v })

abbrev pub ignoring : Option (ℕ × PerfFiber) → Option PerfFiber
ignoring none = none
ignoring (some (res, p)) = some p

-- The events of a switch to the fiber of PerfFiber, and back.
abbrev pub switched : Timestamp → PerfFiber → PerfFiber
switched t p =
    push (fiber_state t p.fiber running)
      (push (fiber_state t p.current ready) (push (message t p.fiber (some emergency_text)) p))

abbrev pub switched_back : Timestamp → PerfFiber → PerfFiber
switched_back u p =
    push (fiber_state u p.current p.current_state) (push (fiber_state u p.fiber p.state) p)

-- The end of Fiber::resume().
abbrev pub resumed : PerfFiber → PerfFiber
resumed p = if is_state p.state new then record p { state_next = ready } else p

module _ (refused : ℕ → Option ℕ) (start : Timestamp) where
  -- processEventBuffer(), which clears the buffer, whatever the result.
  unfoldable pub process_event_buffer : PerfFiber → Option (ℕ × PerfFiber)
  process_event_buffer p = cleared p (process_events refused start p.buffer p.is_open p.files)

  abbrev pub process : PerfFiber → Option PerfFiber
  process p = ignoring (process_event_buffer p)

  -- The end of flushEventBuffer(), with the times before and after.
  unfoldable pub emergency : Timestamp → Timestamp → PerfFiber → Option PerfFiber
  emergency t u p = process (switched t p) >>= (λ q. some (switched_back u q))

  -- flushEventBuffer(), where resume() of the fiber is given.
  unfoldable pub flush_event_buffer :
      (PerfFiber → Option PerfFiber) → Timestamp → Timestamp → PerfFiber → Option PerfFiber
  flush_event_buffer resume t u p =
      let spare_room = buffer_size - length p.buffer in
      if p.fiber == 0 || p.fiber == p.current || ltb spare_room 3
      then process p
      else if ltb 3 spare_room
      then resume p
      else if p.current == 0
      then process p
      else emergency t u p

  -- perf_event(), with the same.
  unfoldable pub put_event :
      (PerfFiber → Option PerfFiber) → Timestamp → Timestamp → Event → PerfFiber → Option PerfFiber
  put_event resume t u e p =
      let q = push e p in
      let size = length q.buffer in
      if ltb buffer_size size
      then none
      else if leb threshold size
      then flush_event_buffer resume t u q
      else some q

  -- Worker::resume() of the fiber: setState() posts an event itself, unless the next state is
  -- Suspended too. The fiber is not suspended then, so that resume() inside of it does nothing. The
  -- queues of the Worker and the assertions of add() are in Worker.antt.
  unfoldable pub resume_fiber : Timestamp → Timestamp → PerfFiber → Option PerfFiber
  resume_fiber t u p =
      let next = p.state_next in
      if is_state p.state suspended && not (is_state next suspended)
      then put_event (λ q. some q) t u (fiber_state t p.fiber next) (record p { state = next })
        >>= (λ q. some (resumed q))
      else some p

  -- perf_event()
  unfoldable pub perf_event : Timestamp → Timestamp → Event → PerfFiber → Option PerfFiber
  perf_event t u e p = put_event (resume_fiber t u) t u e p
