-- ===== src/SortedList.antt =====
-- include/libzth/list.h: class SortedList, an AA tree of nodes with a pointer to the lowest one. A
-- node is a number, its address; a subtree is reached by one pointer only, so that the tree is a
-- value. A level is not bounded here, where the code has a zth_assert(); Levels.antt bounds it.
pub mod Order
pub mod Insert
pub mod Erase
pub mod Head
pub mod Refine
pub mod Levels
pub mod Shrink
pub mod Depth
pub mod History
mod Tests
use zth.Base.{
  ℕ, suc, ◌+◌, ◌-◌, Bool, true, false, not, ◌&&◌, List, [], ◌∷◌, ◌++◌, ltb, ◌==◌, if◌then◌else◌,
}

-- The members left, right and level of the nodes.
pub data Tree : Type 0 where
  leaf : Tree
  node : (level : ℕ) → Tree → ℕ → Tree → Tree

abbrev pub level : Tree → ℕ
level leaf = 0
level (node k l x r) = k

-- lowest() and highest(), with 0 for null.
unfoldable pub lowest : Tree → ℕ
lowest leaf = 0
lowest (node k leaf x r) = x
lowest (node k (node j a y b) x r) = lowest (node j a y b)

unfoldable pub highest : Tree → ℕ
highest leaf = 0
highest (node k l x leaf) = x
highest (node k l x (node j a y b)) = highest (node j a y b)

unfoldable pub skew : Tree → Tree
skew (node k (node j a y b) x r) =
    if j == k then node j a y (node k b x r) else node k (node j a y b) x r
skew t = t

unfoldable pub split : Tree → Tree
split (node k l x (node j b y (node i c z d))) =
    if k == i
    then node (j + 1) (node k l x b) y (node i c z d)
    else node k l x (node j b y (node i c z d))
split t = t

abbrev pub on_right : (Tree → Tree) → Tree → Tree
on_right f leaf = leaf
on_right f (node k l x r) = node k l x (f r)

abbrev pub cap_level : ℕ → Tree → Tree
cap_level k leaf = leaf
cap_level k (node j l x r) = if ltb k j then node k l x r else node j l x r

unfoldable pub decrease_level : Tree → Tree
decrease_level leaf = leaf
decrease_level (node k l x r) =
    let should_be = (if ltb (level l) (level r) then level l else level r) + 1 in
    if ltb should_be k then node should_be l x (cap_level should_be r) else node k l x r

-- The end of delete_().
unfoldable pub rebalance : Tree → Tree
unfolding decrease_level skew split
rebalance t =
    let skewed = on_right (on_right skew) (on_right skew (skew (decrease_level t))) in
    on_right split (split skewed)

-- What insert_() does to m_head at a node x with the left subtree l.
abbrev pub head_at : ℕ → Tree → ℕ → ℕ
head_at x leaf head = head
head_at x (node k l y r) head = if x == head then y else head

-- The end of insert_(): the tree and m_head.
unfoldable pub finish : ℕ → Tree → ℕ → Tree → ℕ → Tree × ℕ
unfolding skew split
finish k l x r head = (split (skew (node k l x r)), head_at x l head)

-- m_head at the start of insert().
abbrev pub first_head : ℕ → Tree → ℕ → ℕ
first_head x leaf head = x
first_head x (node k l y r) head = head

-- The end of delete_() at the node that is deleted: the subtrees, and what is left of each without
-- its node next to this one.
unfoldable pub delete_root : ℕ → Tree → Tree → Tree → Tree → Tree
unfolding rebalance lowest highest
delete_root k leaf leaf l' r' = leaf
delete_root k leaf (node j a y b) l' r' = rebalance (node k leaf (lowest (node j a y b)) r')
delete_root k (node j a y b) r l' r' = rebalance (node k l' (highest (node j a y b)) r)

-- m_t, m_head and m_size.
pub record SortedList : Type 0 where
  pub tree : Tree
  pub head : ℕ
  pub size : ℕ

-- m_comp
module _ (comp : ℕ → ℕ → Bool) where
  -- Whether x goes to the left of t: by m_comp, and by the address of equal ones.
  abbrev pub goes_left : ℕ → ℕ → Bool
  goes_left x t = if comp x t then true else if comp t x then false else ltb x t

  -- insert_(): the tree and m_head.
  unfoldable pub insert_into : ℕ → Tree → ℕ → Tree × ℕ
  unfolding finish
  insert_into x leaf head = (node 1 leaf x leaf, head)
  insert_into x (node k l t r) head =
      let left = (let p = insert_into x l head in finish k p.0 t r p.1) in
      let right = (let p = insert_into x r head in finish k l t p.0 p.1) in
      if goes_left x t then left else right

  -- delete_()
  unfoldable pub delete_from : ℕ → Tree → Tree
  unfolding rebalance delete_root lowest highest
  delete_from x leaf = leaf
  delete_from x (node k l t r) =
      let root = delete_root k l r (delete_from (highest l) l) (delete_from (lowest r) r) in
      let left = rebalance (node k (delete_from x l) t r) in
      let right = rebalance (node k l t (delete_from x r)) in
      if t == x then root else if goes_left x t then left else right

  -- contains(): the loop goes down the tree.
  unfoldable pub find : ℕ → Tree → Bool
  find x leaf = false
  find x (node k l t r) =
      let left = find x l in
      let right = find x r in if t == x then true else if goes_left x t then left else right

  unfoldable pub insert : ℕ → SortedList → SortedList
  unfolding insert_into
  insert x s =
      let p = insert_into x s.tree (first_head x s.tree s.head) in
      record { tree = p.0; head = p.1; size = s.size + 1 }

  unfoldable pub erase : ℕ → SortedList → SortedList
  unfolding delete_from lowest
  erase x s =
      let t = delete_from x s.tree in
      record { tree = t; head = if s.head == x then lowest t else s.head; size = s.size - 1 }
