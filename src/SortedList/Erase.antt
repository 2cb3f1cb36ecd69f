-- ===== src/SortedList/Erase.antt =====
-- include/libzth/list.h: erase() of a SortedList as the removal from its sequence.
use zth.Base.{
  ℕ, ◌≡◌, ◌≢◌, refl, sym, ap, subst, ◌∙◌, Bool, true, false, Bool-cases, inl, inr, List, [], ◌∷◌,
  ◌++◌, arith, ◌==◌, append-nil, append_assoc,
}
use zth.Sync.Queue.{erase}
use zth.List.Cycle.{Away}
use zth.SortedList.{
  Tree, leaf, node, lowest, highest, rebalance, delete_root, goes_left, delete_from,
}
use zth.SortedList.Order.{
  nodes, nodes-rebalance, IsOrder, IsSorted, IsSorted-split, Before, After, goes_left-asym,
  goes_left_irrefl,
}

pub erase-absent : (x : ℕ) (xs : List ℕ) → Away x xs → erase x xs ≡ xs
unfolding erase
erase-absent x [] a = refl
erase-absent x (y ∷ ys) a = ground (arith, a.0, erase-absent x ys a.1)

pub erase-here : (x : ℕ) (xs ys : List ℕ) → Away x xs → erase x (xs ++ x ∷ ys) ≡ xs ++ ys
unfolding erase
erase-here x [] ys a = ground arith
erase-here x (y ∷ xs) ys a = ground (arith, a.0, erase-here x xs ys a.1)

erase-left : (x : ℕ) (xs : List ℕ) (ys : List ℕ) → Away x ys → erase x (xs ++ ys) ≡ erase x xs ++ ys
unfolding erase
erase-left x [] ys a = erase-absent x ys a
erase-left x (y ∷ xs) ys a = ground (arith, erase-left x xs ys a)

erase-right : (x : ℕ) (xs ys : List ℕ) → Away x xs → erase x (xs ++ ys) ≡ xs ++ erase x ys
unfolding erase
erase-right x [] ys a = refl
erase-right x (y ∷ xs) ys a = ground (arith, a.0, erase-right x xs ys a.1)

pub erase-past : (x y : ℕ) (ys : List ℕ) → y ≢ x → erase x (y ∷ ys) ≡ y ∷ erase x ys
unfolding erase
erase-past x y ys n = ground arith

-- The lowest node is the first, and the highest the last.
pub lowest-first :
    (k : ℕ) (l : Tree) (x : ℕ) (r : Tree)
    → (ys : List ℕ) × (nodes (node k l x r) ≡ lowest (node k l x r) ∷ ys)
unfolding nodes lowest
lowest-first k leaf x r = (nodes r, refl)
lowest-first k (node j a y b) x r =
    let (ys, e) = lowest-first j a y b in
    (ys ++ x ∷ nodes r, ap (λ (zs : List ℕ). zs ++ x ∷ nodes r) e)

pub highest-last :
    (k : ℕ) (l : Tree) (x : ℕ) (r : Tree)
    → (ys : List ℕ) × (nodes (node k l x r) ≡ ys ++ highest (node k l x r) ∷ [])
unfolding nodes highest
highest-last k l x leaf = (nodes l, refl)
highest-last k l x (node j a y b) =
    let (ys, e) = highest-last j a y b in
    (
      nodes l ++ x ∷ ys,
      ap (λ (zs : List ℕ). nodes l ++ x ∷ zs) e
          ∙ sym (append_assoc (nodes l) (x ∷ ys) (highest (node j a y b) ∷ [])),
    )

module _ (comp : ℕ → ℕ → Bool) (order : IsOrder comp) where
  -- A node that does not go to the left of y is not before it.
  pub After-Away :
      (x y : ℕ) (zs : List ℕ) → goes_left comp x y ≡ false → After comp y zs → Away x zs
  After-Away x y [] e h = tt
  After-Away x y (z ∷ zs) e h =
      ((λ q. cc (e, subst (λ (w : ℕ). goes_left comp w y ≡ true) q h.0)), After-Away x y zs e h.1)

  pub Before-Away :
      (x y : ℕ) (zs : List ℕ) → goes_left comp y x ≡ false → Before comp y zs → Away x zs
  Before-Away x y [] e h = tt
  Before-Away x y (z ∷ zs) e h =
      ((λ q. cc (e, subst (λ (w : ℕ). goes_left comp y w ≡ true) q h.0)), Before-Away x y zs e h.1)

  -- Without its first or its last node, a sorted sequence is what is left.
  erase-first : (x : ℕ) (ys zs : List ℕ) → zs ≡ x ∷ ys → erase x zs ≡ ys
  unfolding erase
  erase-first x ys zs e = rw e (ground arith)

  erase-last : (x : ℕ) (ys zs : List ℕ) → zs ≡ ys ++ x ∷ [] → IsSorted comp zs → erase x zs ≡ ys
  erase-last x ys zs e s =
      let (a, b, c, d) = IsSorted-split comp ys x [] (subst (IsSorted comp) e s) in
      ap (erase x) e
      ∙ erase-here x ys [] (After-Away x x ys (goes_left_irrefl comp order x) b)
      ∙ append-nil ys

  delete_root-nodes :
      (k : ℕ) (l r l' r' : Tree)
      → IsSorted comp (nodes l)
      → nodes l' ≡ erase (highest l) (nodes l)
      → nodes r' ≡ erase (lowest r) (nodes r)
      → nodes (delete_root k l r l' r') ≡ nodes l ++ nodes r
  unfolding delete_root nodes
  delete_root-nodes k leaf leaf l' r' s p q = refl
  delete_root-nodes k leaf (node j a y b) l' r' s p q =
      let (ys, e) = lowest-first j a y b in
      nodes-rebalance (node k leaf (lowest (node j a y b)) r')
      ∙ ap (λ (zs : List ℕ). lowest (node j a y b) ∷ zs)
          (q ∙ erase-first (lowest (node j a y b)) ys (nodes (node j a y b)) e)
      ∙ sym e
  delete_root-nodes k (node j a y b) r l' r' s p q =
      let (ys, e) = highest-last j a y b in
      let h = highest (node j a y b) in
      nodes-rebalance (node k l' h r)
      ∙ ap (λ (zs : List ℕ). zs ++ h ∷ nodes r) (p ∙ erase-last h ys (nodes (node j a y b)) e s)
      ∙ sym (ap (λ (zs : List ℕ). zs ++ nodes r) e ∙ append_assoc ys (h ∷ []) (nodes r))

  pub delete_here :
      (x k : ℕ) (l : Tree) (t : ℕ) (r : Tree)
      → (t == x) ≡ true
      → delete_from comp x (node k l t r)
        ≡ delete_root k l r (delete_from comp (highest l) l) (delete_from comp (lowest r) r)
  unfolding delete_from
  delete_here x k l t r e = rw e

  pub delete_left :
      (x k : ℕ) (l : Tree) (t : ℕ) (r : Tree)
      → (t == x) ≡ false
      → goes_left comp x t ≡ true
      → delete_from comp x (node k l t r) ≡ rebalance (node k (delete_from comp x l) t r)
  unfolding delete_from
  delete_left x k l t r e g = rw (e, g)

  pub delete_right :
      (x k : ℕ) (l : Tree) (t : ℕ) (r : Tree)
      → (t == x) ≡ false
      → goes_left comp x t ≡ false
      → delete_from comp x (node k l t r) ≡ rebalance (node k l t (delete_from comp x r))
  unfolding delete_from
  delete_right x k l t r e g = rw (e, g)

  pub nodes-delete_from :
      (x : ℕ) (t : Tree)
      → IsSorted comp (nodes t)
      → nodes (delete_from comp x t) ≡ erase x (nodes t)
  unfolding nodes
  nodes-delete_from x leaf s = unfold delete_from erase in refl
  nodes-delete_from x (node k l t r) s =
      let (a, b, c, d) = IsSorted-split comp (nodes l) t (nodes r) s in
      elim (Bool-cases (t == x)) [
        | inl e ↦
            let q : t ≡ x = ground (arith, e) in
            ap nodes (delete_here x k l t r e)
            ∙ delete_root-nodes k l r (delete_from comp (highest l) l)
                (delete_from comp (lowest r) r) a (nodes-delete_from (highest l) l a)
                (nodes-delete_from (lowest r) r d)
            ∙ sym (
                erase-here t (nodes l) (nodes r)
                  (After-Away t t (nodes l) (goes_left_irrefl comp order t) b))
            ∙ ap (λ (y : ℕ). erase y (nodes l ++ t ∷ nodes r)) q
        | inr e ↦
            let n : t ≢ x = ground (arith, e) in
            elim (Bool-cases (goes_left comp x t)) [
              | inl g ↦
                  ap nodes (delete_left x k l t r e g)
                  ∙ nodes-rebalance (node k (delete_from comp x l) t r)
                  ∙ ap (λ (zs : List ℕ). zs ++ t ∷ nodes r) (nodes-delete_from x l a)
                  ∙ sym (
                      erase-left x (nodes l) (t ∷ nodes r)
                        (n, Before-Away x t (nodes r) (goes_left-asym comp order x t g) c))
              | inr g ↦
                  ap nodes (delete_right x k l t r e g)
                  ∙ nodes-rebalance (node k l t (delete_from comp x r))
                  ∙ ap (λ (zs : List ℕ). nodes l ++ t ∷ zs) (nodes-delete_from x r d)
                  ∙ sym (
                      erase-right x (nodes l) (t ∷ nodes r) (After-Away x t (nodes l) g b)
                      ∙ ap (λ (zs : List ℕ). nodes l ++ zs) (erase-past x t (nodes r) n))
            ]
      ]
