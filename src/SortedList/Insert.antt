-- ===== src/SortedList/Insert.antt =====
-- include/libzth/list.h: insert() of a SortedList as an insertion into a sorted sequence.
use zth.Base.{
  ℕ, ◌+◌, ◌≡◌, inl, inr, refl, sym, ap, ◌∙◌, Bool, true, false, Bool-cases, List, [], ◌∷◌, ◌++◌,
  All, arith, if◌then◌else◌, length,
}
use zth.SortedList.{Tree, leaf, node, skew, finish, goes_left, insert_into}
use zth.SortedList.Order.{
  nodes, nodes-skew, nodes-split, IsOrder, IsSorted, IsSorted-split, Before, After, goes_left_trans,
  goes_left-total,
}
use zth.List.Cycle.{Away}

pub nodes-finish :
    (k : ℕ) (l : Tree) (x : ℕ) (r : Tree) (head : ℕ)
    → nodes (finish k l x r head).0 ≡ nodes l ++ x ∷ nodes r
unfolding finish nodes
nodes-finish k l x r head = nodes-split (skew (node k l x r)) ∙ nodes-skew (node k l x r)

module _ (comp : ℕ → ℕ → Bool) where
  -- The sequence with a node before the first one that it goes to the left of.
  unfoldable pub insert_sorted : ℕ → List ℕ → List ℕ
  insert_sorted x [] = x ∷ []
  insert_sorted x (y ∷ ys) = if goes_left comp x y then x ∷ y ∷ ys else y ∷ insert_sorted x ys

  -- Before a node that x goes to the left of.
  pub insert_sorted-left :
      (x : ℕ) (xs : List ℕ) (y : ℕ) (ys : List ℕ)
      → goes_left comp x y ≡ true
      → insert_sorted x (xs ++ y ∷ ys) ≡ insert_sorted x xs ++ y ∷ ys
  unfolding insert_sorted
  insert_sorted-left x [] y ys h = rw h
  insert_sorted-left x (z ∷ xs) y ys h = elim (Bool-cases (goes_left comp x z)) [
    | inl e ↦ rw e
    | inr e ↦ rw (e, insert_sorted-left x xs y ys h)
  ]

  -- Past nodes that it does not go to the left of.
  pub insert_sorted-right :
      (x : ℕ) (xs : List ℕ) (ys : List ℕ)
      → All (λ z. goes_left comp x z ≡ false) xs
      → insert_sorted x (xs ++ ys) ≡ xs ++ insert_sorted x ys
  unfolding insert_sorted
  insert_sorted-right x [] ys h = refl
  insert_sorted-right x (z ∷ xs) ys h = rw (h.0, insert_sorted-right x xs ys h.1)

  pub insert_into_left :
      (x k : ℕ) (l : Tree) (t : ℕ) (r : Tree) (head : ℕ)
      → goes_left comp x t ≡ true
      → insert_into comp x (node k l t r) head
        ≡ finish k (insert_into comp x l head).0 t r (insert_into comp x l head).1
  unfolding insert_into
  insert_into_left x k l t r head e = rw e

  pub insert_into_right :
      (x k : ℕ) (l : Tree) (t : ℕ) (r : Tree) (head : ℕ)
      → goes_left comp x t ≡ false
      → insert_into comp x (node k l t r) head
        ≡ finish k l t (insert_into comp x r head).0 (insert_into comp x r head).1
  unfolding insert_into
  insert_into_right x k l t r head e = rw e

  module _ (order : IsOrder comp) where
    -- What is before y is before what y is not after.
    pub not_left :
        (x y : ℕ) (zs : List ℕ)
        → goes_left comp x y ≡ false
        → After comp y zs
        → All (λ z. goes_left comp x z ≡ false) zs
    not_left x y [] e h = tt
    not_left x y (z ∷ zs) e h =
        (ground (arith, goes_left_trans comp order x z y, e, h.0), not_left x y zs e h.1)

    pub nodes-insert_into :
        (x : ℕ) (t : Tree) (head : ℕ)
        → IsSorted comp (nodes t)
        → nodes (insert_into comp x t head).0 ≡ insert_sorted x (nodes t)
    unfolding nodes
    nodes-insert_into x leaf head s = unfold insert_into insert_sorted in refl
    nodes-insert_into x (node k l t r) head s =
        let (a, b, c, d) = IsSorted-split comp (nodes l) t (nodes r) s in
        elim (Bool-cases (goes_left comp x t)) [
          | inl e ↦
              ap (λ (p : Tree × ℕ). nodes p.0) (insert_into_left x k l t r head e)
              ∙ nodes-finish k (insert_into comp x l head).0 t r (insert_into comp x l head).1
              ∙ ap (λ (ys : List ℕ). ys ++ t ∷ nodes r) (nodes-insert_into x l head a)
              ∙ sym (insert_sorted-left x (nodes l) t (nodes r) e)
          | inr e ↦
              ap (λ (p : Tree × ℕ). nodes p.0) (insert_into_right x k l t r head e)
              ∙ nodes-finish k l t (insert_into comp x r head).0 (insert_into comp x r head).1
              ∙ ap (λ (ys : List ℕ). nodes l ++ t ∷ ys) (nodes-insert_into x r head d)
              ∙ sym (
                  insert_sorted-right x (nodes l) (t ∷ nodes r) (not_left x t (nodes l) e b)
                  ∙ ap (λ (ys : List ℕ). nodes l ++ ys) (unfold insert_sorted in rw e))
        ]

    All-insert_sorted :
        (P : ℕ → Type 0) (x : ℕ) (xs : List ℕ) → P x → All P xs → All P (insert_sorted x xs)
    unfolding insert_sorted
    All-insert_sorted P x [] p h = (p, tt)
    All-insert_sorted P x (y ∷ ys) p h = elim (Bool-cases (goes_left comp x y)) [
      | inl e ↦ rw e (p, h)
      | inr e ↦ rw e (h.0, All-insert_sorted P x ys p h.1)
    ]

    Before-trans :
        (x y : ℕ) (ys : List ℕ) → goes_left comp x y ≡ true → Before comp y ys → Before comp x ys
    Before-trans x y [] e h = tt
    Before-trans x y (z ∷ zs) e h =
        (goes_left_trans comp order x y z e h.0, Before-trans x y zs e h.1)

    -- A sorted sequence stays sorted.
    pub insert_sorted-IsSorted :
        (x : ℕ) (xs : List ℕ) → Away x xs → IsSorted comp xs → IsSorted comp (insert_sorted x xs)
    unfolding insert_sorted
    insert_sorted-IsSorted x [] a s = (tt, tt)
    insert_sorted-IsSorted x (y ∷ ys) a s = elim (Bool-cases (goes_left comp x y)) [
      | inl e ↦ rw e ((e, Before-trans x y ys e s.0), s)
      | inr e ↦ rw e (
        All-insert_sorted (λ z. goes_left comp y z ≡ true) x ys
            (goes_left-total comp order x y (λ q. a.0 (sym q)) e) s.0,
        insert_sorted-IsSorted x ys a.1 s.1,
      )
    ]

  pub length-insert_sorted : (x : ℕ) (xs : List ℕ) → length (insert_sorted x xs) ≡ length xs + 1
  unfolding insert_sorted
  length-insert_sorted x [] = omega arith
  length-insert_sorted x (y ∷ ys) = ground (arith, length-insert_sorted x ys)
