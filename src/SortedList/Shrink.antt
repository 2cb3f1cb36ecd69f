-- ===== src/SortedList/Shrink.antt =====
-- include/libzth/list.h: the levels of a SortedList's nodes at the end of delete_().
pub mod Left
pub mod Right
use zth.Base.{
  ℕ, ◌+◌, ◌≤◌, ◌<◌, ◌≡◌, ◌≢◌, ◌⊎◌, inl, inr, refl, sym, ap, subst, ◌∙◌, Bool, Bool-cases, true,
  false, ltb, if◌then◌else◌, if_true, arith,
}
use zth.SortedList.{
  Tree, leaf, node, level, skew, split, on_right, cap_level, decrease_level, rebalance, delete_root,
  delete_from, lowest, highest, goes_left,
}
use zth.SortedList.Levels.{
  right, IsBalanced, right_le, split_stays, split_lifts, skew_stays, skew_turns,
}

-- A tree after a deletion: on its level, with a right child no higher than before, or one below.
abbrev pub Shrinks : Tree → Tree → Type 0
Shrinks t t' =
    ((level t' ≡ level t) × (level (right t') ≤ level (right t))) ⊎ (level t' + 1 ≡ level t)

abbrev pub Result : Tree → Tree → Type 0
Result t t' = IsBalanced t' × Shrinks t t'

-- What rebalance() does after decrease_level().
abbrev pub restored : Tree → Tree
restored t = on_right split (split (on_right (on_right skew) (on_right skew (skew t))))

pub decrease_stays :
    (k : ℕ) (l : Tree) (x : ℕ) (r : Tree)
    → k ≤ level l + 1
    → k ≤ level r + 1
    → decrease_level (node k l x r) ≡ node k l x r
unfolding decrease_level
decrease_stays k l x r h i = ground arith

pub decrease_both :
    (k j : ℕ) (l : Tree) (x : ℕ) (r : Tree)
    → j + 1 ≡ k
    → ((level l + 1 ≡ j) × (j ≤ level r + 1)) ⊎ ((level r + 1 ≡ j) × (j ≤ level l + 1))
    → decrease_level (node k l x r) ≡ node j l x (cap_level j r)
unfolding decrease_level
decrease_both k j l x r e h =
    let p : (if ltb (level l) (level r) then level l else level r) + 1 ≡ j = ground (arith, h) in
    rw p (if_true {b = ltb j k} _ _ (ground (arith, e)))

pub skew_right : (t : Tree) → IsBalanced t → skew t ≡ t
skew_right leaf b = unfold skew in refl
skew_right (node k l x r) b = skew_stays k l x r (omega arith)

pub split_right : (t : Tree) → IsBalanced t → split t ≡ t
split_right leaf b = unfold split in refl
split_right (node k l x r) b = split_stays k l x r b.2

pub cap_low : (j : ℕ) (r : Tree) → level r ≤ j → cap_level j r ≡ r
cap_low j leaf h = refl
cap_low j (node k l x r) h = ground (arith, h)

pub skews_stay :
    (k : ℕ) (l : Tree) (x : ℕ) (r : Tree)
    → level l ≢ k
    → IsBalanced r
    → on_right (on_right skew) (on_right skew (skew (node k l x r))) ≡ node k l x r
skews_stay k l x leaf n b =
    ap (λ t. on_right (on_right skew) (on_right skew t)) (skew_stays k l x leaf n)
    ∙ unfold skew in refl
skews_stay k l x (node j b y d) n c =
    ap (λ t. on_right (on_right skew) (on_right skew t)) (skew_stays k l x (node j b y d) n)
    ∙ ap (λ r. on_right (on_right skew) (node k l x r)) (skew_right (node j b y d) c)
    ∙ ap (λ e. node k l x (node j b y e)) (skew_right d c.4)

-- With a left child that is lower.
pub restored_lower :
    (k : ℕ) (l : Tree) (x : ℕ) (r : Tree)
    → level l + 1 ≡ k
    → IsBalanced r
    → restored (node k l x r) ≡ on_right split (split (node k l x r))
restored_lower k l x r h b = ap (λ t. on_right split (split t)) (skews_stay k l x r (omega arith) b)

-- What is balanced stays so.
pub restored_same : (t : Tree) → IsBalanced t → restored t ≡ t
restored_same leaf b = unfold skew split in refl
restored_same (node k l x r) b =
    restored_lower k l x r b.0 b.4
    ∙ ap (on_right split) (split_right (node k l x r) b)
    ∙ ap (node k l x) (split_right r b.4)

pub restored_lifted :
    (j : ℕ) (l : Tree) (x : ℕ) (b : Tree) (y : ℕ) (d : Tree)
    → level l + 1 ≡ j
    → level d ≡ j
    → IsBalanced (node j b y d)
    → restored (node j l x (node j b y d)) ≡ node (j + 1) (node j l x b) y d
restored_lifted j l x b y d h e c =
    restored_lower j l x (node j b y d) h c
    ∙ ap (on_right split) (split_lifts j l x j b y d (omega arith) e)
    ∙ ap (node (j + 1) (node j l x b) y) (split_right d c.4)
