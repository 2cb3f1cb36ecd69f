-- ===== src/SmallVector/Storage.antt =====
-- include/libzth/util.h: the two forms of a small_vector that holds a sequence, and the steps between.
use zth.Base.{
  ℕ, zero, suc, ◌+◌, ◌-◌, ◌≤◌, ◌<◌, ◌≡◌, ◌≢◌, ◌⊎◌, refl, ap, ◌∙◌, fun_ext, true, false, Option,
  none, some, List, [], ◌∷◌, ◌++◌, length, get_elem?, leb, ltb, arith, all_but_last,
}
use zth.SmallVector.{
  SmallVector, array, vector, update, slots_of, with_vector, construct, destroy, at, move_out,
  make_vector,
}

module _ {A : Type 0} where
  -- The elements are in the array, or in a std::vector.
  abbrev pub in_array : List A → SmallVector A
  in_array xs = record { m_size = length xs; buffer = array (get_elem? xs) }

  abbrev pub in_vector : ℕ → List A → SmallVector A
  in_vector prealloc xs = record { m_size = prealloc + 1; buffer = vector xs }

  abbrev pub Holds : ℕ → SmallVector A → List A → Type 0
  Holds prealloc s xs = ((length xs ≤ prealloc) × (s ≡ in_array xs)) ⊎ (s ≡ in_vector prealloc xs)

  update_same : (f : ℕ → Option A) (i : ℕ) (a : Option A) → update f i a i ≡ a
  update_same f i a = ground arith

  update_other : (f : ℕ → Option A) (i j : ℕ) (a : Option A) → i ≢ j → update f i a j ≡ f j
  update_other f i j a n = ground arith

  pub get_end : (xs : List A) → get_elem? xs (length xs) ≡ none
  get_end [] = refl
  get_end (x ∷ xs) = get_end xs

  append_at :
      (xs : List A) (a : A) (j : ℕ)
      → update (get_elem? xs) (length xs) (some a) j ≡ get_elem? (xs ++ a ∷ []) j
  append_at [] a zero = refl
  append_at [] a (suc j) = ground arith
  append_at (x ∷ xs) a zero = ground arith
  append_at (x ∷ xs) a (suc j) = ground (arith, append_at xs a j)

  drop_at :
      (x : A) (xs : List A) (j : ℕ)
      → update (get_elem? (x ∷ xs)) (length xs) none j ≡ get_elem? (all_but_last (x ∷ xs)) j
  drop_at x [] zero = refl
  drop_at x [] (suc j) = ground arith
  drop_at x (y ∷ ys) zero = ground arith
  drop_at x (y ∷ ys) (suc j) = ground (arith, drop_at y ys j)

  pub length-all_but_last : (xs : List A) → length (all_but_last xs) ≡ length xs - 1
  length-all_but_last [] = refl
  length-all_but_last (x ∷ []) = refl
  length-all_but_last (x ∷ y ∷ ys) = omega (arith, length-all_but_last (y ∷ ys))

  pub get_last : (x : A) (xs : List A) → (a : A) × (get_elem? (x ∷ xs) (length xs) ≡ some a)
  get_last x [] = (x, refl)
  get_last x (y ∷ ys) = get_last y ys

module _ (prealloc : ℕ) where
  pub small_test : (n : ℕ) → n ≤ prealloc → leb n prealloc ≡ true
  small_test n h = ground (arith, h)

  pub large_test : leb (prealloc + 1) prealloc ≡ false
  large_test = ground arith

  pub room_test : (n : ℕ) → n < prealloc → ltb n prealloc ≡ true
  room_test n h = ground (arith, h)

module _ {A : Type 0} (prealloc : ℕ) where
  pub with_vector-in_vector :
      (f : List A → List A) (xs : List A)
      → with_vector prealloc f (in_vector prealloc xs) ≡ some (in_vector prealloc (f xs))
  with_vector-in_vector f xs = rw (large_test prealloc) refl

  -- One slot of an array.
  module _ (m : ℕ) (f : ℕ → Option A) (small : m ≤ prealloc) where
    abbrev s : SmallVector A
    s = record { m_size = m; buffer = array f }

    slots_lem : slots_of prealloc s ≡ some f
    slots_lem = rw (small_test prealloc m small) refl

    construct_lem :
        (i : ℕ) (a : A)
        → i < prealloc
        → f i ≡ none
        → construct prealloc i a s ≡ some (record s { buffer = array (update f i (some a)) })
    unfolding construct
    construct_lem i a l e = rw slots_lem (rw (room_test prealloc i l) (rw e refl))

    destroy_lem :
        (i : ℕ) (a : A)
        → f i ≡ some a
        → destroy prealloc i s ≡ some (record s { buffer = array (update f i none) })
    unfolding destroy
    destroy_lem i a e = rw slots_lem (rw e refl)

    at_lem : (i : ℕ) → at prealloc i s ≡ f i
    unfolding at
    at_lem i = rw (small_test prealloc m small) refl

  -- An element behind the others.
  pub construct_end :
      (a : A) (xs : List A)
      → length xs < prealloc
      → construct prealloc (length xs) a (in_array xs)
        ≡ some (record { m_size = length xs; buffer = array (get_elem? (xs ++ a ∷ [])) })
  construct_end a xs h =
      construct_lem (length xs) (get_elem? xs) (omega (arith, h)) (length xs) a h (get_end xs)
      ∙ ap (λ (f : ℕ → Option A). some (record { m_size = length xs; buffer = array f }))
          (fun_ext (append_at xs a))

  -- The last element.
  pub destroy_last :
      (x : A) (xs : List A)
      → length xs < prealloc
      → destroy prealloc
          (length xs)
          (record { m_size = length xs; buffer = array (get_elem? (x ∷ xs)) })
        ≡ some (in_array (all_but_last (x ∷ xs)))
  destroy_last x xs h =
      let (a, e) = get_last x xs in
      let n : length xs ≡ length (all_but_last (x ∷ xs)) =
        omega (arith, length-all_but_last (x ∷ xs)) in
      destroy_lem (length xs) (get_elem? (x ∷ xs)) (omega (arith, h)) (length xs) a e
      ∙ ap (λ (f : ℕ → Option A). some (record { m_size = length xs; buffer = array f }))
          (fun_ext (drop_at x xs))
      ∙ ap
          (λ (k : ℕ).
            some (record { m_size = k; buffer = array (get_elem? (all_but_last (x ∷ xs))) }))
          n

  -- The elements of an array, from an index on.
  move_out_from :
      (m : ℕ) (xs : List A) (i : ℕ) (f : ℕ → Option A)
      → m ≤ prealloc
      → ((j : ℕ) → j < length xs → f (i + j) ≡ get_elem? xs j)
      → move_out prealloc (length xs) i (record { m_size = m; buffer = array f }) ≡ some xs
  unfolding move_out
  move_out_from m [] i f h g = refl
  move_out_from m (x ∷ xs) i f h g =
      let e : f i ≡ some x = ap f (omega arith) ∙ g 0 (omega arith) in
      rw (at_lem m f h i) (
        rw e (
          rw (destroy_lem m f h i x e) (
            rw
              (move_out_from m xs (i + 1) (update f i none) h (λ j l.
                update_other f i (i + 1 + j) none (omega arith)
                ∙ ap f (omega arith)
                ∙ g (suc j) (omega (arith, l))))
              refl)))

  pub move_out-in_array :
      (xs : List A) → length xs ≤ prealloc → move_out prealloc (length xs) 0 (in_array xs) ≡ some xs
  move_out-in_array xs h =
      move_out_from (length xs) xs 0 (get_elem? xs) h (λ j l. ap (get_elem? xs) (omega arith))

  pub make_vector-in_array :
      (xs : List A)
      → length xs ≤ prealloc
      → make_vector prealloc (in_array xs) ≡ some (in_vector prealloc xs)
  unfolding make_vector
  make_vector-in_array xs h =
      rw (small_test prealloc (length xs) h) (rw (move_out-in_array xs h) refl)
