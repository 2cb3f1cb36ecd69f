-- ===== src/SmallVector/Own.antt =====
-- include/libzth/util.h: push_back() of an element of the small_vector itself.
use zth.Base.{
  ℕ, ◌+◌, ◌≤◌, ◌<◌, ◌≡◌, inl, inr, refl, ap, Bool-cases, none, some, List, [], ◌∷◌, ◌++◌, length,
  get_elem?, ◌==◌, if◌then◌else◌, arith,
}
use zth.SmallVector.{SmallVector, slots_of, push_back_own}
use zth.SmallVector.Storage.{in_array, in_vector, small_test, large_test, construct_end}
use zth.SmallVector.Refine.{size-Holds, reserve_more, reserve_less, grown}

module _ {A : Type 0} (prealloc : ℕ) where
  slots_in_array :
      (xs : List A) → length xs ≤ prealloc → slots_of prealloc (in_array xs) ≡ some (get_elem? xs)
  slots_in_array xs h = rw (small_test prealloc (length xs) h) refl

  slots_in_vector : (xs : List A) → slots_of prealloc (in_vector prealloc xs) ≡ none
  slots_in_vector xs = rw (large_test prealloc) refl

  own_room :
      (i : ℕ) (a : A) (xs : List A)
      → length xs < prealloc
      → get_elem? xs i ≡ some a
      → push_back_own prealloc i (in_array xs) ≡ some (in_array (xs ++ a ∷ []))
  unfolding push_back_own
  own_room i a xs h e = rw (slots_in_array xs (omega (arith, h))) (
      rw (size-Holds prealloc (in_array xs) xs (inl (omega (arith, h), refl))) (
        rw (reserve_less prealloc (length xs + 1) xs (omega (arith, h)) (omega (arith, h))) (
          rw (slots_in_array xs (omega (arith, h))) (
            rw e (
              rw (construct_end prealloc a xs h)
                (ap (λ (s : SmallVector A). some s) (grown prealloc a xs)))))))

  own_full :
      (i : ℕ) (xs : List A) → length xs ≡ prealloc → push_back_own prealloc i (in_array xs) ≡ none
  unfolding push_back_own
  own_full i xs h = rw (slots_in_array xs (omega (arith, h))) (
      rw (size-Holds prealloc (in_array xs) xs (inl (omega (arith, h), refl))) (
        rw (reserve_more prealloc (length xs + 1) xs (omega (arith, h)) (omega (arith, h)))
          (rw (slots_in_vector xs) refl)))

  -- push_back() of an element that is in the array of the small_vector itself appends a copy of
  -- it if there is room, and if the array is full reads the element after it was moved away and
  -- destroyed.
  pub push_back_own_lem :
      (i : ℕ) (a : A) (xs : List A)
      → length xs ≤ prealloc
      → get_elem? xs i ≡ some a
      → push_back_own prealloc i (in_array xs)
        ≡ (if length xs == prealloc then none else some (in_array (xs ++ a ∷ [])))
  push_back_own_lem i a xs h e = elim (Bool-cases (length xs == prealloc)) [
    | inl q ↦ rw q (own_full i xs (ground (arith, q)))
    | inr q ↦ rw q (own_room i a xs (ground (arith, q, h)) e)
  ]
