-- ===== src/Perf/Tests.antt =====
-- Runs of the perf output.
use zth.Base.{
  ℕ, ◌≡◌, ◌≤◌, ◌++◌, refl, true, List, [], ◌∷◌, Option, none, some, length, replicate, All,
  All-append, All-replicate, ◌==◌, if◌then◌else◌, arith,
}
use zth.Fiber.{ready, running, suspended}
use zth.Time.Stamp.{Timestamp, diff}
use zth.Time.Stamp
use zth.Perf.{
  Text, Line, fiber_state, fiber_name, message, begin_message, Vcd, wrote, fault, vcd_id, digits,
  Ids, write_event,
}
use zth.Perf.Ids.{uses, releases, AllFit, run, IsIdOf, vcd_id_lem}
use zth.Perf.Texts.{printed, escaped, message_lem}
use zth.Perf.Buffer.{PerfFiber}
use zth.Perf.History.{Step, posts, processes, turns, fresh, run-Good}
use zth.Perf.History
use zth.Perf.Ids

-- 1000 is 10 * 93 + 70.
thousand : digits 15 1000 [] ≡ some (44 ∷ 104 ∷ [])
unfolding digits
thousand = refl

-- The largest number takes all of ten characters.
largest :
    digits 15 18446744073709551615 [] ≡ some (69 ∷ 75 ∷ 82 ∷ 94 ∷ 126 ∷ 81 ∷ 47 ∷ 69 ∷ 67 ∷ 49 ∷ [])
unfolding digits
largest = refl

vcd_id_lem_example :
    (ids : Ids) × (id : Text) × (next : Ids) × (run (uses 7 ∷ uses 1000 ∷ releases 7 ∷ []) []
      ≡ some ids)
    × (vcd_id 1000 ids ≡ some (id, next))
    × IsIdOf 1000 id
vcd_id_lem_example =
    vcd_id_lem (uses 7 ∷ uses 1000 ∷ releases 7 ∷ []) 1000 (omega arith, (omega arith, tt))
      (omega arith)

abbrev empty : Vcd
empty = record { vcd = []; vcdd = []; ids = []; calls = 0 }

-- "a b " loses no more than its last character.
message_lem_example :
    (write_event (λ n. none) Stamp.null (message Stamp.null 7 (some [])) empty ≡ fault)
    × ((w : Vcd) × (ls : List Line) × (write_event
            (λ n. none)
            Stamp.null
            (message Stamp.null 7 (some (97 ∷ 32 ∷ 98 ∷ 32 ∷ [])))
            empty
          ≡ wrote w)
        × (w.vcdd ≡ ls ++ begin_message (diff Stamp.null Stamp.null) ∷ [])
        × (w.vcd ≡ [])
        × (printed (λ c. c ∷ []) ls ≡ escaped (λ c. c ∷ []) (97 ∷ 32 ∷ 98 ∷ 32 ∷ [])))
message_lem_example =
    message_lem (λ c. c ∷ []) Stamp.null Stamp.null 7 97 (32 ∷ 98 ∷ 32 ∷ []) empty (omega arith) tt

-- The third write fails, and the buffer fills up while the fiber does not run.
abbrev steps : List Step
steps =
    turns 2 suspended ready 9 running
    ∷ posts Stamp.null Stamp.null (fiber_name 9 (some (77 ∷ [])))
    ∷ (replicate 130 (posts Stamp.null Stamp.null (fiber_state Stamp.null 9 running))
        ++ processes
          ∷ posts Stamp.null Stamp.null (message Stamp.null 9 (some (72 ∷ 105 ∷ [])))
          ∷ [])

steps-Fits : All History.Fits steps
steps-Fits = (
  (omega arith, omega arith),
  (
    omega arith,
    All-append History.Fits
        (replicate 130 (posts Stamp.null Stamp.null (fiber_state Stamp.null 9 running)))
        (processes ∷ posts Stamp.null Stamp.null (message Stamp.null 9 (some (72 ∷ 105 ∷ []))) ∷ [])
        (All-replicate History.Fits 130
          (posts Stamp.null Stamp.null (fiber_state Stamp.null 9 running)) (omega arith))
        (tt, ((omega arith, omega arith), tt)),
  ),
)

abbrev third : ℕ → Option ℕ
third n = if n == 2 then some 0 else none

run-Good_example :
    (p : PerfFiber) × (History.run third Stamp.null steps (fresh true) ≡ some p)
    × (length p.buffer ≤ 124)
    × Ids.Good p.files.ids
run-Good_example = run-Good third Stamp.null true steps steps-Fits
