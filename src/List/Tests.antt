-- ===== src/List/Tests.antt =====
-- The theorems about List at lists of a few nodes.
use zth.Base.{refl, true, false, [], ◌∷◌, arith}
use zth.List.{Chain, push_back}
use zth.List.Refine.{Holds}
use zth.List.History.{at_back, at_front, turn, before, out, off_back, off_front, run, run_lem}

abbrev none_yet : Chain
none_yet = record { prev = λ _. 0; next = λ _. 0; user = λ _. 0; head = 0; tail = 0 }

abbrev three : Chain
three = push_back 3 (push_back 2 (push_back 1 none_yet))

three-Holds : Holds three (1 ∷ 2 ∷ 3 ∷ [])
unfolding push_back
three-Holds = (
  (
    (refl, refl, (refl, refl, (refl, refl))),
    (ground arith, (ground arith, (ground arith, tt))),
    ((ground arith, (ground arith, tt)), ((ground arith, tt), (tt, tt))),
  ),
  refl,
  refl,
)

-- Each kind of call once.
run_lem_example :
    Holds
      (run
        (at_back 4
          ∷ at_front 5
          ∷ turn 2
          ∷ before 4 6
          ∷ out true 6
          ∷ off_back false
          ∷ off_front true
          ∷ [])
        three)
      (3 ∷ 4 ∷ 5 ∷ [])
run_lem_example =
    run_lem
      (at_back 4
        ∷ at_front 5
        ∷ turn 2
        ∷ before 4 6
        ∷ out true 6
        ∷ off_back false
        ∷ off_front true
        ∷ [])
      three (1 ∷ 2 ∷ 3 ∷ []) (3 ∷ 4 ∷ 5 ∷ [])
      (
        1 ∷ 2 ∷ 3 ∷ 4 ∷ [],
        (omega arith, ground arith, refl),
        (
          5 ∷ 1 ∷ 2 ∷ 3 ∷ 4 ∷ [],
          (omega arith, ground arith, refl),
          (
            2 ∷ 3 ∷ 4 ∷ 5 ∷ 1 ∷ [],
            (5 ∷ 1 ∷ [], 3 ∷ 4 ∷ [], refl, refl),
            (
              2 ∷ 3 ∷ 6 ∷ 4 ∷ 5 ∷ 1 ∷ [],
              (2, 3 ∷ [], 5 ∷ 1 ∷ [], omega arith, ground arith, refl, refl),
              (
                2 ∷ 3 ∷ 4 ∷ 5 ∷ 1 ∷ [],
                (2 ∷ 3 ∷ [], 4 ∷ 5 ∷ 1 ∷ [], refl, refl),
                (2 ∷ 3 ∷ 4 ∷ 5 ∷ [], (1, refl), (3 ∷ 4 ∷ 5 ∷ [], (2, refl), refl)),
              ),
            ),
          ),
        ),
      )
      three-Holds
