-- ===== src/Shared/Tests.antt =====
-- A run of three pointers.
use zth.Base.{◌≡◌, ◌&&◌, refl, inl, inr, List, [], ◌∷◌, ◌==◌, if◌then◌else◌, arith}
use zth.Shared.{reset, used, unused, assign, move}
use zth.Shared.Counts.{count}
use zth.Shared.History.{Call, resets, assigns, moves, run, fresh, given, AllFit, run-Counted}

-- Object 7 comes and goes, and object 5 is shared, moved, and goes when its last pointer is moved
-- to itself.
abbrev calls : List Call
calls =
    resets 0 5 ∷ assigns 1 0 ∷ moves 2 0 ∷ resets 0 7 ∷ resets 0 0 ∷ assigns 1 0 ∷ moves 2 2 ∷ []

calls-AllFit : AllFit calls (fresh 3)
unfolding reset used unused assign move count
calls-AllFit = (
  (omega arith, inr refl),
  (
    (omega arith, omega arith),
    (
      (omega arith, omega arith),
      (
        (omega arith, inr refl),
        ((omega arith, inl refl), ((omega arith, omega arith), ((omega arith, omega arith), tt))),
      ),
    ),
  ),
)

freed : (run calls (fresh 3)).freed ≡ 5 ∷ 7 ∷ []
unfolding reset used unused assign move
freed = refl

run-Counted_example :
    ((run calls (fresh 3)).refs 5 ≡ count 5 (run calls (fresh 3)).held)
    × (count 5 (run calls (fresh 3)).freed
        ≡ (if given calls 5 && (count 5 (run calls (fresh 3)).held == 0) then 1 else 0))
run-Counted_example = run-Counted 3 calls 5 calls-AllFit (λ e. omega (arith, e))
