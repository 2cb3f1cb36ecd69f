-- ===== src/Perf.antt =====
-- src/perf.cpp: PerfFiber, which writes the perf events as a VCD file. Characters are their codes,
-- and a C string is the list of its characters before the terminator. fprintf() is of the C library:
-- a line stands for a call of it with its arguments, and whether it succeeds, and the errno it
-- leaves if not, is a parameter. A read or write outside a buffer is the result fault.
pub mod Ids
pub mod Texts
pub mod Buffer
pub mod Safety
pub mod History
mod Tests
use zth.Base.{
  ℕ, zero, suc, ◌+◌, ◌-◌, ◌*◌, ◌/◌, ◌%◌, Bool, true, false, ◌&&◌, ◌||◌, List, [], ◌∷◌, ◌++◌, Option,
  none, some, ltb, ◌==◌, if◌then◌else◌, length,
}
use zth.Fiber.{State, uninitialized, new, ready, running, waiting, suspended, dead, eagain}
use zth.Time.Interval.{TimeInterval}
use zth.Time.Stamp.{Timestamp, diff}

abbrev pub Text : Type 0
Text = List ℕ

abbrev pub eio : ℕ
eio = 5

-- The digits of a fiber's number, written before s; there is room for as many more.
unfoldable pub digits : ℕ → ℕ → Text → Option Text
digits zero id s = none
digits (suc room) id s =
    let s' = (id % 93 + 34) ∷ s in
    let rest = digits room (id / 93) s' in if id / 93 == 0 then some s' else rest

-- The array holds 16 characters, and the last is the terminator.
abbrev pub buffer_room : ℕ
buffer_room = 15

-- m_vcdIds
abbrev pub Ids : Type 0
Ids = List (ℕ × Text)

abbrev pub find : ℕ → Ids → Option Text
find fiber [] = none
find fiber ((f, id) ∷ ids) = if f == fiber then some id else find fiber ids

-- vcdId(), which returns the text and what m_vcdIds is then.
unfoldable pub vcd_id : ℕ → Ids → Option (Text × Ids)
vcd_id fiber ids = elim (find fiber ids) [
  | some id ↦ some (id, ids)
  | none ↦ elim (digits buffer_room fiber []) [ none ↦ none | some s ↦ some (s, (fiber, s) ∷ ids) ]
]

-- vcdIdRelease()
unfoldable pub vcd_id_release : ℕ → Ids → Ids
vcd_id_release fiber [] = []
vcd_id_release fiber ((f, id) ∷ ids) =
    let rest = vcd_id_release fiber ids in if f == fiber then rest else (f, id) ∷ rest

-- PerfEvent, with the string, or null, that it points to. A state that is none of Fiber::State
-- does not occur.
pub data Event : Type 0 where
  nothing : Event
  fiber_name : ℕ → Option Text → Event
  fiber_state : Timestamp → ℕ → State → Event
  message : Timestamp → ℕ → Option Text → Event

-- The calls of fprintf(), with what they print.
pub data Line : Type 0 where
  named : Text → ℕ → Text → Line
  unnamed : Text → ℕ → Line
  change : TimeInterval → ℕ → Text → Line
  begin_message : TimeInterval → Line
  escape : Text → ℕ → Line
  end_message : Text → Text → Line

-- *p < 33 || *p > 126. A code over 127 is a negative character, or one over 126.
abbrev pub unprintable : ℕ → Bool
unprintable c = ltb c 33 || ltb 126 c

-- The loop over a name.
unfoldable pub sanitise : Text → Text
sanitise [] = []
sanitise (c ∷ cs) = (if unprintable c then 95 else c) ∷ sanitise cs

-- The switch on the state: the character, and whether the fiber is gone.
abbrev pub letter : State → ℕ
letter new = 76
letter ready = 48
letter running = 49
letter waiting = 87
letter suspended = 90
letter dead = 88
letter uninitialized = 45

abbrev pub is_gone : State → Bool
is_gone uninitialized = true
is_gone _ = false

-- The files, with the last line first, the identifiers, and how often fprintf() was called.
pub record Vcd : Type 0 where
  pub vcd : List Line
  pub vcdd : List Line
  pub ids : Ids
  pub calls : ℕ

pub data Wrote : Type 0 where
  wrote : Vcd → Wrote
  failed : ℕ → Vcd → Wrote
  fault : Wrote

abbrev pub chain : Wrote → (Vcd → Wrote) → Wrote
chain (wrote v) next = next v
chain (failed res v) next = failed res v
chain fault next = fault

-- What follows a call of fprintf(), by the errno it leaves when it fails.
abbrev pub settled : Option ℕ → Vcd → Vcd → Wrote
settled (some res) before after = failed res before
settled none before after = wrote after

-- What is done with the result of vcdId().
abbrev pub with_found : Option (Text × Ids) → (Text → Vcd → Wrote) → Vcd → Wrote
with_found none next v = fault
with_found (some (id, ids)) next v = next id (record v { ids = ids })

unfoldable pub with_id : ℕ → (Text → Vcd → Wrote) → Vcd → Wrote
with_id fiber next v = with_found (vcd_id fiber v.ids) next v

-- The end of processEventBuffer().
abbrev pub result_of : Wrote → Option (ℕ × Vcd)
result_of (wrote v) = some (0, v)
result_of (failed res v) = some (if res == 0 then eio else res, v)
result_of fault = none

-- Which calls of fprintf() fail, by how many calls were before.
module _ (refused : ℕ → Option ℕ) where
  unfoldable pub print_vcd : Line → Vcd → Wrote
  print_vcd line v =
      let called = record v { calls = v.calls + 1 } in
      settled (refused v.calls) called (record called { vcd = line ∷ v.vcd })

  unfoldable pub print_vcdd : Line → Vcd → Wrote
  print_vcdd line v =
      let called = record v { calls = v.calls + 1 } in
      settled (refused v.calls) called (record called { vcdd = line ∷ v.vcdd })

  -- The loop over a message, from chunkEnd on, with the characters from chunkStart to there; it
  -- looks at the character after chunkEnd. Then the call that prints the rest from chunkStart.
  unfoldable pub write_chunks : ℕ → Text → Text → Vcd → Wrote
  write_chunks fiber chunk [] v = fault
  write_chunks fiber chunk (c ∷ []) v =
      with_id fiber (λ id. print_vcdd (end_message (chunk ++ c ∷ []) id)) v
  write_chunks fiber chunk (c ∷ d ∷ cs) v =
      if unprintable c
      then chain (print_vcdd (escape chunk c) v) (write_chunks fiber [] (d ∷ cs))
      else write_chunks fiber (chunk ++ c ∷ []) (d ∷ cs) v

  -- The switch on an event. A marker is a message.
  unfoldable pub write_event : Timestamp → Event → Vcd → Wrote
  write_event start nothing v = wrote v
  write_event start (fiber_name fiber (some str)) v =
      with_id fiber (λ id. print_vcd (named id fiber (sanitise str))) v
  write_event start (fiber_name fiber none) v = with_id fiber (λ id. print_vcd (unnamed id fiber)) v
  write_event start (fiber_state t fiber state) v =
      chain (with_id fiber (λ id. print_vcdd (change (diff t start) (letter state) id)) v)
        (λ w. wrote (if is_gone state then (record w { ids = vcd_id_release fiber w.ids }) else w))
  write_event start (message t fiber none) v = wrote v
  write_event start (message t fiber (some s)) v =
      chain (print_vcdd (begin_message (diff t start)) v) (write_chunks fiber [] s)

  unfoldable pub write_events : Timestamp → List Event → Vcd → Wrote
  write_events start [] v = wrote v
  write_events start (e ∷ es) v = chain (write_event start e v) (write_events start es)

  -- processEventBuffer() on the events of the buffer: the result, and the files.
  unfoldable pub process_events : Timestamp → List Event → Bool → Vcd → Option (ℕ × Vcd)
  process_events start events is_open v =
      if is_open then result_of (write_events start events v) else some (eagain, v)
