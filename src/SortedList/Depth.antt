-- ===== src/SortedList/Depth.antt =====
-- include/libzth/list.h: the levels of a SortedList's nodes through any series of calls.
use zth.Base.{
  ℕ, ◌+◌, ◌^◌, ◌≤◌, ◌≡◌, inl, inr, refl, sym, ap, subst, ◌∙◌, Bool, Bool-cases, List, [], ◌∷◌,
  length, ◌==◌, arith,
}
use zth.SortedList.{
  Tree, leaf, node, level, SortedList, lowest, highest, rebalance, delete_root, delete_from, insert,
  erase, goes_left, first_head,
}
use zth.SortedList.Order.{IsOrder}
use zth.SortedList.Erase.{delete_here, delete_left, delete_right}
use zth.SortedList.Head.{Represents}
use zth.SortedList.Levels.{IsBalanced, right_le, insert_into-IsBalanced, level_bound}
use zth.SortedList.Shrink.{Result, decrease_stays, restored, restored_same}
use zth.SortedList.Shrink.Left.{drops_left, drops_left_flat}
use zth.SortedList.Shrink.Right.{drops_right}
use zth.SortedList.History.{Call, puts, removes, apply, run, AllFit, run-Represents}

rebalance_same : (t : Tree) → IsBalanced t → rebalance t ≡ t
unfolding rebalance
rebalance_same leaf b = restored_same leaf b
rebalance_same (node k l x r) b =
    ap restored (decrease_stays k l x r (omega (arith, b.0)) (ground (arith, b.1)))
    ∙ restored_same (node k l x r) b

rebalance-left :
    (k : ℕ) (l l' : Tree) (x : ℕ) (r : Tree)
    → IsBalanced (node k l x r)
    → Result l l'
    → Result (node k l x r) (rebalance (node k l' x r))
rebalance-left k l l' x r b (c, inl (e, m)) =
    let t : IsBalanced (node k l' x r) = (omega (arith, e, b.0), b.1, b.2, c, b.4) in
    subst (Result (node k l x r)) (sym (rebalance_same (node k l' x r) t))
      (t, inl (refl, omega arith))
rebalance-left k l l' x r b (c, inr e) = elim b.1 [
  | inl low ↦ drops_left k l l' x r b c e low
  | inr flat ↦ drops_left_flat k l l' x r b c e flat
]

right_stays :
    (k : ℕ) (l : Tree) (x : ℕ) (r r' : Tree)
    → IsBalanced (node k l x r')
    → level r' ≤ level r
    → Result (node k l x r) (rebalance (node k l x r'))
right_stays k l x r r' t h =
    subst (Result (node k l x r)) (sym (rebalance_same (node k l x r') t)) (t, inl (refl, h))

rebalance-right :
    (k : ℕ) (l : Tree) (x : ℕ) (r r' : Tree)
    → IsBalanced (node k l x r)
    → Result r r'
    → Result (node k l x r) (rebalance (node k l x r'))
rebalance-right k l x r r' b (c, inl (e, m)) =
    right_stays k l x r r' (b.0, ground (arith, b.1, e), omega (arith, m, b.2), b.3, c)
      (omega (arith, e))
rebalance-right k l x r r' b (c, inr e) = elim b.1 [
  | inl low ↦ drops_right k l x r r' b c e low
  | inr flat ↦
      right_stays k l x r r'
        (b.0, inl (omega (arith, e, flat)), omega (arith, right_le r' c, e, flat), b.3, c)
        (omega (arith, e))
]

delete_root-Result :
    (k : ℕ) (l : Tree) (x : ℕ) (r l' r' : Tree)
    → IsBalanced (node k l x r)
    → Result l l'
    → Result r r'
    → Result (node k l x r) (delete_root k l r l' r')
unfolding delete_root
delete_root-Result k leaf x leaf l' r' b p q = (tt, inr (omega (arith, b.0)))
delete_root-Result k leaf x (node j a y c) l' r' b p q =
    rebalance-right k leaf (lowest (node j a y c)) (node j a y c) r' b q
delete_root-Result k (node j a y c) x r l' r' b p q =
    rebalance-left k (node j a y c) l' (highest (node j a y c)) r b p

module _ (comp : ℕ → ℕ → Bool) (order : IsOrder comp) where
  delete_from-Result : (x : ℕ) (t : Tree) → IsBalanced t → Result t (delete_from comp x t)
  delete_from-Result x leaf b = unfold delete_from in (tt, inl (refl, omega arith))
  delete_from-Result x (node k l t r) b = elim (Bool-cases (t == x)) [
    | inl e ↦ subst (Result (node k l t r)) (sym (delete_here comp order x k l t r e)) (
        delete_root-Result k l t r (delete_from comp (highest l) l) (delete_from comp (lowest r) r)
          b (delete_from-Result (highest l) l b.3) (delete_from-Result (lowest r) r b.4))
    | inr e ↦ elim (Bool-cases (goes_left comp x t)) [
      | inl g ↦
          subst (Result (node k l t r)) (sym (delete_left comp order x k l t r e g))
            (rebalance-left k l (delete_from comp x l) t r b (delete_from-Result x l b.3))
      | inr g ↦
          subst (Result (node k l t r)) (sym (delete_right comp order x k l t r e g))
            (rebalance-right k l t r (delete_from comp x r) b (delete_from-Result x r b.4))
    ]
  ]

  apply-IsBalanced :
      (c : Call) (s : SortedList) → IsBalanced s.tree → IsBalanced (apply comp c s).tree
  unfolding insert erase
  apply-IsBalanced (puts x) s b =
      insert_into-IsBalanced comp x s.tree (first_head x s.tree s.head) b
  apply-IsBalanced (removes x) s b = (delete_from-Result x s.tree b).0

  run-IsBalanced :
      (cs : List Call) (s : SortedList) → IsBalanced s.tree → IsBalanced (run comp cs s).tree
  run-IsBalanced [] s b = b
  run-IsBalanced (c ∷ cs) s b = run-IsBalanced cs (apply comp c s) (apply-IsBalanced c s b)

  -- After any series of insert() and erase() on a SortedList that represents a sorted sequence
  -- and has the levels of an AA tree, it has them still: a left child is one level lower, a
  -- right child one lower or at the same level, a right grandchild lower, and a leaf is at level
  -- 1. So the level of the tree is at most the logarithm of its size plus one. A node that is
  -- inserted is not there, one that is erased is, and m_comp is an order.
  pub level-run :
      (cs : List Call) (s : SortedList) (xs : List ℕ)
      → AllFit comp cs xs
      → Represents comp s xs
      → IsBalanced s.tree
      → IsBalanced (run comp cs s).tree
        × (2 ^ level (run comp cs s).tree ≤ (run comp cs s).size + 1)
  level-run cs s xs f r b =
      let (e, h, n, o) = (run-Represents comp order cs s xs f r).0 in
      let t = run-IsBalanced cs s b in
      let d = level_bound (run comp cs s).tree t in (t, omega (arith, n, d, ap length e))
