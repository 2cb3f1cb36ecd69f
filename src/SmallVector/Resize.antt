-- ===== src/SmallVector/Resize.antt =====
-- include/libzth/util.h: resize(), pop_back() and clear() of a small_vector, and series of calls.
use zth.Base.{
  ℕ, zero, suc, ◌+◌, ◌-◌, ◌≤◌, ◌<◌, ◌≡◌, inl, inr, refl, sym, ap, subst, ◌∙◌, Bool-cases, some,
  List, [], ◌∷◌, ◌++◌, append-nil, append_assoc, length, length-append, get_elem?, leb, arith, take,
  replicate, all_but_last,
}
use zth.SmallVector.{SmallVector, array, pop_back, shrink, grow, resized, resize, clear, destroy}
use zth.SmallVector.Storage.{
  in_array, in_vector, Holds, small_test, large_test, with_vector-in_vector, construct_end,
  destroy_last, make_vector-in_array, length-all_but_last,
}
use zth.SmallVector.Refine.{Gives, grown}

all_gone : (n : ℕ) → n - (n - 0) ≡ 0
all_gone n = omega arith

one_more : (m n : ℕ) → suc m - (suc m - suc n) ≡ suc (m - (m - n))
one_more m n = omega arith

module _ {A : Type 0} where
  take_none : (n : ℕ) → take {A = A} n [] ≡ []
  take_none zero = refl
  take_none (suc n) = refl

  pub take_all : (n : ℕ) (xs : List A) → length xs ≤ n → take n xs ≡ xs
  take_all zero [] h = refl
  take_all zero (x ∷ xs) h = absurd (omega (arith, h))
  take_all (suc n) [] h = refl
  take_all (suc n) (x ∷ xs) h = ap (λ (ys : List A). x ∷ ys) (take_all n xs (omega (arith, h)))

  take-all_but_last : (n : ℕ) (xs : List A) → n < length xs → take n (all_but_last xs) ≡ take n xs
  take-all_but_last zero xs h = refl
  take-all_but_last (suc n) [] h = absurd (omega (arith, h))
  take-all_but_last (suc n) (x ∷ []) h = absurd (omega (arith, h))
  take-all_but_last (suc n) (x ∷ y ∷ ys) h =
      ap (λ (zs : List A). x ∷ zs) (take-all_but_last n (y ∷ ys) (omega (arith, h)))

  length-take : (n : ℕ) (xs : List A) → length xs - (length xs - n) ≡ length (take n xs)
  length-take zero xs = omega arith
  length-take (suc n) [] = omega arith
  length-take (suc n) (x ∷ xs) = omega (arith, length-take n xs)

  take-take : (n : ℕ) (xs : List A) → take n (take n xs) ≡ take n xs
  take-take n xs = take_all n (take n xs) (omega (arith, length-take n xs))

  take_min : (n : ℕ) (xs : List A) → take (length xs - (length xs - n)) xs ≡ take n xs
  take_min zero xs = ap (λ (k : ℕ). take k xs) (all_gone (length xs))
  take_min (suc n) [] = take_none (0 - (0 - suc n))
  take_min (suc n) (x ∷ xs) =
      ap (λ (k : ℕ). take k (x ∷ xs)) (one_more (length xs) n)
      ∙ ap (λ (zs : List A). x ∷ zs) (take_min n xs)

suc-sub-one : (n : ℕ) → suc n - 1 ≡ n
suc-sub-one n = omega arith

zero_sub : (n : ℕ) → 0 - n ≡ 0
zero_sub n = omega arith

fewer : (r m n : ℕ) → n ≡ suc m - 1 → n - r ≡ suc m - suc r
fewer r m n e = omega (arith, e)

module _ {A : Type 0} where
  length-replicate : (n : ℕ) (x : A) → length (replicate n x) ≡ n
  length-replicate zero x = refl
  length-replicate (suc n) x = omega (arith, length-replicate n x)

  none_left : (x : A) (n : ℕ) → replicate (0 - n) x ≡ []
  none_left x n = ap (λ (k : ℕ). replicate k x) (zero_sub n)

  resized-take : (n : ℕ) (x : A) (xs : List A) → resized n x (take n xs) ≡ resized n x xs
  resized-take n x xs =
      ap (λ (ys : List A). ys ++ replicate (n - length (take n xs)) x) (take-take n xs)
      ∙ ap (λ (k : ℕ). take n xs ++ replicate k x) (omega (arith, length-take n xs))

module _ {A : Type 0} (prealloc : ℕ) where
  lowered :
      (x : A) (xs : List A)
      → destroy prealloc
          (suc (length xs) - 1)
          (record { m_size = suc (length xs) - 1; buffer = array (get_elem? (x ∷ xs)) })
        ≡ destroy prealloc
            (length xs)
            (record { m_size = length xs; buffer = array (get_elem? (x ∷ xs)) })
  lowered x xs =
      ap
        (λ (k : ℕ). destroy prealloc k (record { m_size = k; buffer = array (get_elem? (x ∷ xs)) }))
        (suc-sub-one (length xs))

  pop_step :
      (x : A) (xs : List A)
      → length xs < prealloc
      → destroy prealloc
          (suc (length xs) - 1)
          (record { m_size = suc (length xs) - 1; buffer = array (get_elem? (x ∷ xs)) })
        ≡ some (in_array (all_but_last (x ∷ xs)))
  pop_step x xs h = lowered x xs ∙ destroy_last prealloc x xs h

  pub pop_back-Holds :
      (s : SmallVector A) (xs : List A)
      → 0 < length xs
      → Holds prealloc s xs
      → Gives prealloc (pop_back prealloc s) (all_but_last xs)
  unfolding pop_back
  pop_back-Holds s [] l h = absurd (omega (arith, l))
  pop_back-Holds s (x ∷ xs) l (inr e) =
      (in_vector prealloc (all_but_last (x ∷ xs)), rw e (rw (large_test prealloc) refl), inr refl)
  pop_back-Holds s (x ∷ xs) l (inl (h, e)) = (
    in_array (all_but_last (x ∷ xs)),
    rw e (rw (small_test prealloc (suc (length xs)) h) (pop_step x xs (omega (arith, h)))),
    inl (omega (arith, h, length-all_but_last (x ∷ xs)), refl),
  )

  shrink_lem :
      (rounds : ℕ) (xs : List A)
      → rounds ≤ length xs
      → length xs ≤ prealloc
      → shrink prealloc rounds (in_array xs) ≡ some (in_array (take (length xs - rounds) xs))
  unfolding shrink
  shrink_lem zero xs l h =
      ap (λ (ys : List A). some (in_array ys)) (sym (take_all (length xs - 0) xs (omega arith)))
  shrink_lem (suc rounds) [] l h = absurd (omega (arith, l))
  shrink_lem (suc rounds) (x ∷ xs) l h =
      let ys = all_but_last (x ∷ xs) in
      let n = length-all_but_last (x ∷ xs) in
      rw (pop_step x xs (omega (arith, h))) (
        shrink_lem rounds ys (omega (arith, l, n)) (omega (arith, h, n))
        ∙ ap (λ (k : ℕ). some (in_array (take k ys))) (fewer rounds (length xs) (length ys) n)
        ∙ ap (λ (zs : List A). some (in_array zs))
            (take-all_but_last (suc (length xs) - suc rounds) (x ∷ xs) (omega (arith, l))))

  grow_lem :
      (rounds : ℕ) (x : A) (xs : List A)
      → length xs + rounds ≤ prealloc
      → grow prealloc rounds x (in_array xs) ≡ some (in_array (xs ++ replicate rounds x))
  unfolding grow
  grow_lem zero x xs h = ap (λ (ys : List A). some (in_array ys)) (sym (append-nil xs))
  grow_lem (suc rounds) x xs h = rw (construct_end prealloc x xs (omega (arith, h))) (
      ap (grow prealloc rounds x) (grown prealloc x xs)
      ∙ grow_lem rounds x (xs ++ x ∷ []) (omega (arith, h, length-append xs (x ∷ [])))
      ∙ ap (λ (ys : List A). some (in_array ys)) (append_assoc xs (x ∷ []) (replicate rounds x)))

  -- The first of the two loops of resize().
  cut :
      (count : ℕ) (xs : List A)
      → length xs ≤ prealloc
      → shrink prealloc (length xs - count) (in_array xs) ≡ some (in_array (take count xs))
  cut count xs h =
      shrink_lem (length xs - count) xs (omega arith) h
      ∙ ap (λ (ys : List A). some (in_array ys)) (take_min count xs)

  pub resize-Holds :
      (count : ℕ) (x : A) (s : SmallVector A) (xs : List A)
      → Holds prealloc s xs
      → Gives prealloc (resize prealloc count x s) (resized count x xs)
  unfolding resize
  resize-Holds count x s xs (inr e) =
      (in_vector prealloc (resized count x xs), rw e (rw (large_test prealloc) refl), inr refl)
  resize-Holds count x s xs (inl (h, e)) =
      let ys = take count xs in
      let n = length-take count xs in
      let same : count - length ys ≡ count - length xs = omega (arith, n) in
      elim (Bool-cases (leb count prealloc)) [
        | inl l ↦
            let c : count ≤ prealloc = ground (arith, l) in
            (
              in_array (resized count x xs),
              rw e (
                  rw (small_test prealloc (length xs) h) (
                    rw (cut count xs h) (
                      rw l (
                        grow_lem (count - length ys) x ys (ground (arith, l, n, h))
                        ∙ ap (λ (k : ℕ). some (in_array (ys ++ replicate k x))) same)))),
              inl (
                omega (
                  arith,
                  n,
                  h,
                  c,
                  length-append ys (replicate (count - length xs) x),
                  length-replicate (count - length xs) x,
                ),
                refl,
              ),
            )
        | inr l ↦ (
          in_vector prealloc (resized count x xs),
          rw e (
              rw (small_test prealloc (length xs) h) (
                rw (cut count xs h) (
                  rw l (
                    rw (make_vector-in_array prealloc ys (omega (arith, n, h))) (
                      with_vector-in_vector prealloc (resized count x) ys
                      ∙ ap (λ (zs : List A). some (in_vector prealloc zs))
                          (resized-take count x xs)))))),
          inr refl,
        )
      ]

  pub clear-Holds :
      (x : A) (s : SmallVector A) (xs : List A)
      → Holds prealloc s xs
      → Gives prealloc (clear prealloc x s) []
  unfolding clear
  clear-Holds x s xs (inr e) =
      (in_vector prealloc [], rw e (rw (large_test prealloc) refl), inr refl)
  clear-Holds x s xs (inl (h, e)) =
      let small =
        ap (λ (t : SmallVector A). leb t.m_size prealloc) e ∙ small_test prealloc (length xs) h in
      let (s', q, g) = resize-Holds 0 x s xs (inl (h, e)) in
      (s', rw small q, subst (Holds prealloc s') (none_left x (length xs)) g)
