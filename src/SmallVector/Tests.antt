-- ===== src/SmallVector/Tests.antt =====
-- Runs of a small_vector with room for two elements.
use zth.Base.{
  ℕ, ◌≡◌, refl, none, some, List, [], ◌∷◌, length, get_elem?, arith, ◌==◌, if◌then◌else◌,
}
use zth.SmallVector.{SmallVector, fresh, size, at, push_back_own}
use zth.SmallVector.Storage.{in_array}
use zth.SmallVector.History.{Call, pushes, pops, reserves, resizes, run, make_all, run_from_fresh}
use zth.SmallVector.Own.{push_back_own_lem}

-- It outgrows the array, and stays a std::vector.
abbrev calls : List (Call ℕ)
calls = pushes 5 ∷ resizes 4 7 ∷ pops ∷ pushes 9 ∷ resizes 2 0 ∷ reserves 1 ∷ pushes 3 ∷ []

run_from_fresh_example :
    (s : SmallVector ℕ) × (run 2 calls fresh ≡ some s)
    × (size 2 s ≡ some (length (make_all calls [])))
    × ((i : ℕ) → at 2 i s ≡ get_elem? (make_all calls []) i)
run_from_fresh_example =
    run_from_fresh 2 calls (tt, (tt, (omega arith, (tt, (tt, (tt, (tt, tt)))))))

made : make_all calls [] ≡ 5 ∷ 7 ∷ 3 ∷ []
made = refl

push_back_own_lem_example :
    push_back_own {A = ℕ} 2 0 (in_array (5 ∷ 6 ∷ []))
    ≡ (if length {A = ℕ} (5 ∷ 6 ∷ []) == 2 then none else some (in_array (5 ∷ 6 ∷ 5 ∷ [])))
push_back_own_lem_example = push_back_own_lem 2 0 5 (5 ∷ 6 ∷ []) (omega arith) refl
