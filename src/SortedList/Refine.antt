-- ===== src/SortedList/Refine.antt =====
-- include/libzth/list.h: the operations of a SortedList as operations on a sorted sequence.
use zth.Base.{
  ℕ, ◌-◌, ◌≡◌, ◌≢◌, inl, inr, refl, sym, ap, subst, ◌∙◌, Bool, true, Bool-cases, List, [], ◌∷◌,
  ◌++◌, All, arith, ◌==◌, if◌then◌else◌, length,
}
use zth.Sync.Queue
use zth.Sync.Queue.{contains}
use zth.List.Cycle.{Away}
use zth.List.Refine.{first}
use zth.SortedList.{
  Tree, leaf, node, lowest, first_head, goes_left, insert_into, delete_from, find, SortedList,
  insert, erase,
}
use zth.SortedList.Order.{nodes, IsOrder, IsSorted, IsSorted-split, goes_left-asym}
use zth.SortedList.Insert.{
  insert_sorted, nodes-insert_into, insert_sorted-IsSorted, length-insert_sorted,
}
use zth.SortedList.Erase.{nodes-delete_from, lowest-first, After-Away, Before-Away}
use zth.SortedList.Head.{Represents, head_moves}

first-nodes : (t : Tree) → lowest t ≡ first (nodes t)
first-nodes leaf = unfold lowest nodes in refl
first-nodes (node k l x r) = let (ys, e) = lowest-first k l x r in sym (ap first e)

length-erase :
    (x : ℕ) (xs : List ℕ) → contains x xs ≡ true → length (Queue.erase x xs) ≡ length xs - 1
unfolding contains Queue.erase
length-erase x [] h = omega arith
length-erase x (y ∷ []) h = ground arith
length-erase x (y ∷ z ∷ zs) h = ground (arith, length-erase x (z ∷ zs))

contains-left : (x : ℕ) (xs ys : List ℕ) → Away x ys → contains x (xs ++ ys) ≡ contains x xs
unfolding contains
contains-left x [] [] a = refl
contains-left x [] (y ∷ ys) a = ground (arith, a.0, contains-left x [] ys a.1)
contains-left x (z ∷ xs) ys a = ground (arith, contains-left x xs ys a)

contains-right : (x : ℕ) (xs ys : List ℕ) → Away x xs → contains x (xs ++ ys) ≡ contains x ys
unfolding contains
contains-right x [] ys a = refl
contains-right x (z ∷ xs) ys a = ground (arith, a.0, contains-right x xs ys a.1)

contains-here : (x : ℕ) (xs ys : List ℕ) → contains x (xs ++ x ∷ ys) ≡ true
unfolding contains
contains-here x [] ys = ground arith
contains-here x (z ∷ xs) ys = ground (arith, contains-here x xs ys)

contains-past : (x y : ℕ) (ys : List ℕ) → y ≢ x → contains x (y ∷ ys) ≡ contains x ys
unfolding contains
contains-past x y ys n = ground arith

module _ (comp : ℕ → ℕ → Bool) (order : IsOrder comp) where
  head_inserted :
      (x : ℕ) (t : Tree) (head : ℕ)
      → IsSorted comp (nodes t)
      → Away x (nodes t)
      → head ≡ first (nodes t)
      → (insert_into comp x t (first_head x t head)).1 ≡ first (insert_sorted comp x (nodes t))
  head_inserted x leaf head s a h = unfold insert_into insert_sorted nodes in refl
  head_inserted x (node k l t r) head s a h = head_moves comp order x k l t r head s a h

  -- insert()
  pub insert-Represents :
      (x : ℕ) (s : SortedList) (xs : List ℕ)
      → Away x xs
      → Represents comp s xs
      → Represents comp (insert comp x s) (insert_sorted comp x xs)
  unfolding insert
  insert-Represents x s xs a (e, h, n, o) =
      let sorted = subst (IsSorted comp) (sym e) o in
      let away = subst (Away x) (sym e) a in
      (
        nodes-insert_into comp order x s.tree (first_head x s.tree s.head) sorted
            ∙ ap (insert_sorted comp x) e,
        head_inserted x s.tree s.head sorted away (h ∙ ap first (sym e))
            ∙ ap (λ (ys : List ℕ). first (insert_sorted comp x ys)) e,
        omega (arith, n, length-insert_sorted comp x xs),
        insert_sorted-IsSorted comp order x xs a o,
      )

  All-erase : (P : ℕ → Type 0) (x : ℕ) (xs : List ℕ) → All P xs → All P (Queue.erase x xs)
  unfolding Queue.erase
  All-erase P x [] h = tt
  All-erase P x (y ∷ ys) h = elim (Bool-cases (y == x)) [
    | inl e ↦ rw e h.1
    | inr e ↦ rw e (h.0, All-erase P x ys h.1)
  ]

  erase-IsSorted : (x : ℕ) (xs : List ℕ) → IsSorted comp xs → IsSorted comp (Queue.erase x xs)
  unfolding Queue.erase
  erase-IsSorted x [] s = tt
  erase-IsSorted x (y ∷ ys) s = elim (Bool-cases (y == x)) [
    | inl e ↦ rw e s.1
    | inr e ↦ rw e (All-erase (λ z. goes_left comp y z ≡ true) x ys s.0, erase-IsSorted x ys s.1)
  ]

  -- The head after an erasure.
  head_erased :
      (x head low : ℕ) (xs : List ℕ)
      → contains x xs ≡ true
      → head ≡ first xs
      → low ≡ first (Queue.erase x xs)
      → (if head == x then low else head) ≡ first (Queue.erase x xs)
  unfolding Queue.erase contains
  head_erased x head low [] c h l = absurd (cc)
  head_erased x head low (y ∷ ys) c h l = ground (arith, h, l)

  -- erase()
  pub erase-Represents :
      (x : ℕ) (s : SortedList) (xs : List ℕ)
      → contains x xs ≡ true
      → Represents comp s xs
      → Represents comp (erase comp x s) (Queue.erase x xs)
  unfolding erase
  erase-Represents x s xs c (e, h, n, o) =
      let t : nodes (delete_from comp x s.tree) ≡ Queue.erase x xs =
        nodes-delete_from comp order x s.tree (subst (IsSorted comp) (sym e) o)
        ∙ ap (Queue.erase x) e in
      (
        t,
        head_erased x s.head (lowest (delete_from comp x s.tree)) xs c h
            (first-nodes (delete_from comp x s.tree) ∙ ap first t),
        omega (arith, n, length-erase x xs c),
        erase-IsSorted x xs o,
      )

  -- contains()
  pub find_lem : (x : ℕ) (t : Tree) → IsSorted comp (nodes t) → find comp x t ≡ contains x (nodes t)
  unfolding nodes find
  find_lem x leaf s = unfold contains in refl
  find_lem x (node k l t r) s =
      let (a, b, c, d) = IsSorted-split comp (nodes l) t (nodes r) s in
      elim (Bool-cases (t == x)) [
        | inl e ↦
            let q : t ≡ x = ground (arith, e) in
            rw e (
              sym (
                subst (λ (y : ℕ). contains x (nodes l ++ y ∷ nodes r) ≡ true) (sym q)
                  (contains-here x (nodes l) (nodes r))))
        | inr e ↦
            let n : t ≢ x = ground (arith, e) in
            elim (Bool-cases (goes_left comp x t)) [
              | inl g ↦
                  rw (e, g)
                    (find_lem x l a
                      ∙ sym (
                          contains-left x (nodes l) (t ∷ nodes r) (
                            n,
                            Before-Away comp order x t (nodes r) (goes_left-asym comp order x t g)
                                c,
                          )))
              | inr g ↦
                  rw (e, g)
                    (find_lem x r d
                      ∙ sym (
                          contains-right x (nodes l) (t ∷ nodes r)
                            (After-Away comp order x t (nodes l) g b)
                          ∙ contains-past x t (nodes r) n))
            ]
      ]
