-- ===== src/SortedList/Head.antt =====
-- include/libzth/list.h: m_head of a SortedList is its lowest node, and the whole of a SortedList
-- as a sorted sequence.
use zth.Base.{
  ℕ, ◌≡◌, ◌≢◌, ◌⊎◌, inl, inr, refl, sym, ap, subst, ◌∙◌, Bool, true, Bool-cases, List, [], ◌∷◌,
  ◌++◌, All-split, arith, length,
}
use zth.List.Cycle.{Away}
use zth.List.Refine.{first}
use zth.SortedList.{Tree, leaf, node, lowest, finish, head_at, goes_left, insert_into, SortedList}
use zth.SortedList.Order.{nodes, IsOrder, IsSorted, IsSorted-split, Before, goes_left_irrefl}
use zth.SortedList.Insert.{
  insert_sorted, insert_into_left, insert_into_right, insert_sorted-left, insert_sorted-right,
  not_left,
}
use zth.SortedList.Erase.{lowest-first, Before-Away}

head_at_other : (x : ℕ) (l : Tree) (head : ℕ) → x ≢ head → head_at x l head ≡ head
head_at_other x leaf head n = refl
head_at_other x (node k l y r) head n = ground arith

first-append : (xs : List ℕ) (y : ℕ) (ys zs : List ℕ) → xs ≡ y ∷ ys → first (xs ++ zs) ≡ y
first-append xs y ys zs e = ap (λ (ws : List ℕ). first (ws ++ zs)) e

module _ (comp : ℕ → ℕ → Bool) where
  -- A head that is elsewhere stays.
  head_stays :
      (x : ℕ) (t : Tree) (head : ℕ) → Away head (nodes t) → (insert_into comp x t head).1 ≡ head
  unfolding nodes finish
  head_stays x leaf head a = unfold insert_into in refl
  head_stays x (node k l t r) head a =
      let (p, q) = All-split (λ y. y ≢ head) (nodes l) (t ∷ nodes r) a in
      elim (Bool-cases (goes_left comp x t)) [
        | inl e ↦
            let h = head_stays x l head p in
            ap (λ (o : Tree × ℕ). o.1) (insert_into_left comp x k l t r head e)
            ∙ ap (head_at t (insert_into comp x l head).0) h
            ∙ head_at_other t (insert_into comp x l head).0 head q.0
        | inr e ↦
            let h = head_stays x r head q.1 in
            ap (λ (o : Tree × ℕ). o.1) (insert_into_right comp x k l t r head e)
            ∙ ap (head_at t l) h
            ∙ head_at_other t l head q.0
      ]

  -- The first of a sequence after an insertion.
  first-insert_sorted :
      (x y : ℕ) (ys : List ℕ)
      → (first (insert_sorted comp x (y ∷ ys)) ≡ x) ⊎ (first (insert_sorted comp x (y ∷ ys)) ≡ y)
  unfolding insert_sorted
  first-insert_sorted x y ys = ground arith

  insert_sorted-cons :
      (x : ℕ) (xs : List ℕ) → (z : ℕ) × (zs : List ℕ) × (insert_sorted comp x xs ≡ z ∷ zs)
  unfolding insert_sorted
  insert_sorted-cons x [] = (x, [], refl)
  insert_sorted-cons x (y ∷ ys) = elim (Bool-cases (goes_left comp x y)) [
    | inl e ↦ (x, y ∷ ys, rw e)
    | inr e ↦ (y, insert_sorted comp x ys, rw e)
  ]

  first-insert_left :
      (x : ℕ) (xs : List ℕ) (y : ℕ) (ys : List ℕ)
      → goes_left comp x y ≡ true
      → first (insert_sorted comp x (xs ++ y ∷ ys)) ≡ first (insert_sorted comp x xs)
  first-insert_left x xs y ys e =
      let (z, zs, p) = insert_sorted-cons x xs in
      ap first (insert_sorted-left comp x xs y ys e)
      ∙ first-append (insert_sorted comp x xs) z zs (y ∷ ys) p
      ∙ sym (ap first p)

  module _ (order : IsOrder comp) where
    pub Before-self : (x : ℕ) (xs : List ℕ) → Before comp x xs → Away x xs
    Before-self x xs h = Before-Away comp order x x xs (goes_left_irrefl comp order x) h

    -- The first of the left nodes is not in the rest.
    first_apart : (m : ℕ) (ys xs zs : List ℕ) → xs ≡ m ∷ ys → IsSorted comp (xs ++ zs) → Away m zs
    first_apart m ys xs zs e s =
        let t = subst (λ (ws : List ℕ). IsSorted comp (ws ++ zs)) e s in
        (All-split (λ y. y ≢ m) ys zs (Before-self m (ys ++ zs) t.0)).1

    pub head_moves :
        (x k : ℕ) (l : Tree) (t : ℕ) (r : Tree) (head : ℕ)
        → IsSorted comp (nodes (node k l t r))
        → Away x (nodes (node k l t r))
        → head ≡ first (nodes (node k l t r))
        → (insert_into comp x (node k l t r) head).1
          ≡ first (insert_sorted comp x (nodes (node k l t r)))
    unfolding nodes finish
    head_moves x k leaf t r head s a h = elim (Bool-cases (goes_left comp x t)) [
      | inl e ↦
          ap (λ (o : Tree × ℕ). o.1) (insert_into_left comp x k leaf t r head e)
          ∙ unfold insert_into insert_sorted in ground (arith, e, h)
      | inr e ↦
          ap (λ (o : Tree × ℕ). o.1) (insert_into_right comp x k leaf t r head e)
          ∙ head_stays x r head
              (subst (λ (y : ℕ). Away y (nodes r)) (sym h) (Before-self t (nodes r) s.0))
          ∙ h
          ∙ sym (unfold insert_sorted in rw e)
    ]
    head_moves x k (node j c y d) t r head s a h =
        let l = node j c y d in
        let (ys, p) = lowest-first j c y d in
        let m = lowest l in
        let low : first (nodes l) ≡ m = ap first p in
        let q : head ≡ m = h ∙ first-append (nodes l) m ys (t ∷ nodes r) p in
        let apart = first_apart m ys (nodes l) (t ∷ nodes r) p s in
        let (sl, after, before, sr) = IsSorted-split comp (nodes l) t (nodes r) s in
        let (al, ar) = All-split (λ z. z ≢ x) (nodes l) (t ∷ nodes r) a in
        elim (Bool-cases (goes_left comp x t)) [
          | inl e ↦
              let ih = head_moves x j c y d head sl al (q ∙ sym low) in
              let new : first (insert_sorted comp x (nodes l)) ≢ t = λ w.
                elim (first-insert_sorted x m ys) [
                  | inl u ↦
                      ar.0 (sym w ∙ ap (λ (zs : List ℕ). first (insert_sorted comp x zs)) p ∙ u)
                  | inr u ↦
                      apart.0 (sym w ∙ ap (λ (zs : List ℕ). first (insert_sorted comp x zs)) p ∙ u)
                ] in
              ap (λ (o : Tree × ℕ). o.1) (insert_into_left comp x k l t r head e)
              ∙ ap (head_at t (insert_into comp x l head).0) ih
              ∙ head_at_other t (insert_into comp x l head).0
                  (first (insert_sorted comp x (nodes l))) (λ w. new (sym w))
              ∙ sym (first-insert_left x (nodes l) t (nodes r) e)
          | inr e ↦
              ap (λ (o : Tree × ℕ). o.1) (insert_into_right comp x k l t r head e)
              ∙ ap (head_at t l)
                  (head_stays x r head (subst (λ (z : ℕ). Away z (nodes r)) (sym q) apart.1))
              ∙ head_at_other t l head (λ w. apart.0 (w ∙ q))
              ∙ q
              ∙ sym (
                  ap first (
                    insert_sorted-right comp x (nodes l) (t ∷ nodes r)
                      (not_left comp order x t (nodes l) e after))
                  ∙ first-append (nodes l) m ys (insert_sorted comp x (t ∷ nodes r)) p)
        ]

  -- The tree, the head and the size of a SortedList are those of a sorted sequence.
  abbrev pub Represents : SortedList → List ℕ → Type 0
  Represents s xs =
      (nodes s.tree ≡ xs) × (s.head ≡ first xs) × (s.size ≡ length xs) × IsSorted comp xs
