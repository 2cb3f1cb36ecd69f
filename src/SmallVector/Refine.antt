-- ===== src/SmallVector/Refine.antt =====
-- include/libzth/util.h: the operations of a small_vector as operations on a sequence.
use zth.Base.{
  ℕ, ◌+◌, ◌≤◌, ◌<◌, ◌≡◌, inl, inr, refl, sym, ap, true, false, Bool-cases, Option, some, List, [],
  ◌∷◌, ◌++◌, length, length-append, get_elem?, leb, ltb, arith,
}
use zth.SmallVector.{SmallVector, array, size, at, reserve, push_back}
use zth.SmallVector.Storage.{
  in_array, in_vector, Holds, small_test, large_test, room_test, with_vector-in_vector,
  construct_end, make_vector-in_array,
}

no_room : (prealloc : ℕ) → ltb (prealloc + 1) prealloc ≡ false
no_room prealloc = ground arith

ltb→lt : (m n : ℕ) → ltb m n ≡ true → m < n
ltb→lt m n h = ground (arith, h)

module _ {A : Type 0} (prealloc : ℕ) where
  -- The result of an operation, which holds a sequence.
  abbrev pub Gives : Option (SmallVector A) → List A → Type 0
  Gives r xs = (s : SmallVector A) × (r ≡ some s) × Holds prealloc s xs

  pub size-Holds :
      (s : SmallVector A) (xs : List A) → Holds prealloc s xs → size prealloc s ≡ some (length xs)
  unfolding size
  size-Holds s xs (inl (h, e)) = rw e (rw (small_test prealloc (length xs) h) refl)
  size-Holds s xs (inr e) = rw e (rw (large_test prealloc) refl)

  pub at-Holds :
      (i : ℕ) (s : SmallVector A) (xs : List A)
      → Holds prealloc s xs
      → at prealloc i s ≡ get_elem? xs i
  unfolding at
  at-Holds i s xs (inl (h, e)) = rw e (rw (small_test prealloc (length xs) h) refl)
  at-Holds i s xs (inr e) = rw e (rw (large_test prealloc) refl)

  reserve_vector :
      (n : ℕ) (xs : List A)
      → reserve prealloc n (in_vector prealloc xs) ≡ some (in_vector prealloc xs)
  unfolding reserve
  reserve_vector n xs = rw (large_test prealloc) (with_vector-in_vector prealloc (λ ys. ys) xs)

  pub reserve_more :
      (n : ℕ) (xs : List A)
      → length xs ≤ prealloc
      → prealloc < n
      → reserve prealloc n (in_array xs) ≡ some (in_vector prealloc xs)
  unfolding reserve
  reserve_more n xs h l = rw (small_test prealloc (length xs) h) (
      rw (beyond n l)
        (rw (make_vector-in_array prealloc xs h) (with_vector-in_vector prealloc (λ ys. ys) xs)))
    where
      beyond : (n : ℕ) → prealloc < n → leb n prealloc ≡ false
      beyond n l = ground (arith, l)

  pub reserve_less :
      (n : ℕ) (xs : List A)
      → length xs ≤ prealloc
      → n ≤ prealloc
      → reserve prealloc n (in_array xs) ≡ some (in_array xs)
  unfolding reserve
  reserve_less n xs h l = rw (small_test prealloc (length xs) h) (rw (small_test prealloc n l) refl)

  pub grown :
      (a : A) (xs : List A)
      → record { m_size = length xs + 1; buffer = array (get_elem? (xs ++ a ∷ [])) }
        ≡ in_array (xs ++ a ∷ [])
  grown a xs =
      ap (λ (k : ℕ). record { m_size = k; buffer = array (get_elem? (xs ++ a ∷ [])) })
        (sym (length-append xs (a ∷ [])))

  push_back_room :
      (a : A) (xs : List A)
      → length xs < prealloc
      → push_back prealloc a (in_array xs) ≡ some (in_array (xs ++ a ∷ []))
  unfolding push_back
  push_back_room a xs h = rw (size-Holds (in_array xs) xs (inl (omega (arith, h), refl))) (
      rw (reserve_less (length xs + 1) xs (omega (arith, h)) (omega (arith, h))) (
        rw (room_test prealloc (length xs) h)
          (rw (construct_end prealloc a xs h) (ap (λ (s : SmallVector A). some s) (grown a xs)))))

  push_back_full :
      (a : A) (xs : List A)
      → length xs ≡ prealloc
      → push_back prealloc a (in_array xs) ≡ some (in_vector prealloc (xs ++ a ∷ []))
  unfolding push_back
  push_back_full a xs h = rw (size-Holds (in_array xs) xs (inl (omega (arith, h), refl))) (
      rw (reserve_more (length xs + 1) xs (omega (arith, h)) (omega (arith, h)))
        (rw (no_room prealloc) (with_vector-in_vector prealloc (λ ys. ys ++ a ∷ []) xs)))

  push_back_vector :
      (a : A) (xs : List A)
      → push_back prealloc a (in_vector prealloc xs) ≡ some (in_vector prealloc (xs ++ a ∷ []))
  unfolding push_back
  push_back_vector a xs = rw (size-Holds (in_vector prealloc xs) xs (inr refl)) (
      rw (reserve_vector (length xs + 1) xs)
        (rw (no_room prealloc) (with_vector-in_vector prealloc (λ ys. ys ++ a ∷ []) xs)))

  pub push_back-Holds :
      (a : A) (s : SmallVector A) (xs : List A)
      → Holds prealloc s xs
      → Gives (push_back prealloc a s) (xs ++ a ∷ [])
  push_back-Holds a s xs (inr e) =
      (in_vector prealloc (xs ++ a ∷ []), rw e (push_back_vector a xs), inr refl)
  push_back-Holds a s xs (inl (h, e)) = elim (Bool-cases (ltb (length xs) prealloc)) [
    | inl l ↦ (
      in_array (xs ++ a ∷ []),
      rw e (push_back_room a xs (ground (arith, l))),
      inl (omega (arith, length-append xs (a ∷ []), ltb→lt (length xs) prealloc l), refl),
    )
    | inr l ↦ (
      in_vector prealloc (xs ++ a ∷ []),
      rw e (push_back_full a xs (ground (arith, l, h))),
      inr refl,
    )
  ]

  pub reserve-Holds :
      (n : ℕ) (s : SmallVector A) (xs : List A)
      → Holds prealloc s xs
      → Gives (reserve prealloc n s) xs
  reserve-Holds n s xs (inr e) = (in_vector prealloc xs, rw e (reserve_vector n xs), inr refl)
  reserve-Holds n s xs (inl (h, e)) = elim (Bool-cases (leb n prealloc)) [
    | inl l ↦ (in_array xs, rw e (reserve_less n xs h (ground (arith, l))), inl (h, refl))
    | inr l ↦ (in_vector prealloc xs, rw e (reserve_more n xs h (ground (arith, l))), inr refl)
  ]
