-- ===== src/SortedList/Order.antt =====
-- include/libzth/list.h: a SortedList as the sequence of its nodes, and the order that sorts it.
use zth.Base.{
  ℕ, ◌+◌, ◌≡◌, ◌≢◌, ◌⊎◌, refl, ap, ◌∙◌, Bool, true, false, List, [], ◌∷◌, ◌++◌, append_assoc, All,
  All-split, arith, ltb, if◌then◌else◌,
}
use zth.SortedList.{
  Tree, leaf, node, level, skew, split, on_right, cap_level, decrease_level, rebalance, goes_left,
}

-- The nodes from the lowest to the highest.
unfoldable pub nodes : Tree → List ℕ
nodes leaf = []
nodes (node k l x r) = nodes l ++ x ∷ nodes r

pub nodes-skew : (t : Tree) → nodes (skew t) ≡ nodes t
unfolding nodes skew
nodes-skew leaf = refl
nodes-skew (node k leaf x r) = refl
nodes-skew (node k (node j a y b) x r) =
    ground (arith, append_assoc (nodes a) (y ∷ nodes b) (x ∷ nodes r))

pub nodes-split : (t : Tree) → nodes (split t) ≡ nodes t
unfolding nodes split
nodes-split leaf = refl
nodes-split (node k l x leaf) = refl
nodes-split (node k l x (node j b y leaf)) = refl
nodes-split (node k l x (node j b y (node i c z d))) =
    ground (arith, append_assoc (nodes l) (x ∷ nodes b) (y ∷ (nodes c ++ z ∷ nodes d)))

pub nodes-on_right :
    (f : Tree → Tree)
    → ((t : Tree) → nodes (f t) ≡ nodes t)
    → (t : Tree) → nodes (on_right f t) ≡ nodes t
unfolding nodes
nodes-on_right f h leaf = refl
nodes-on_right f h (node k l x r) = ap (λ (ys : List ℕ). nodes l ++ x ∷ ys) (h r)

nodes-cap_level : (k : ℕ) (t : Tree) → nodes (cap_level k t) ≡ nodes t
unfolding nodes
nodes-cap_level k leaf = refl
nodes-cap_level k (node j l x r) = ground arith

nodes-decrease_level : (t : Tree) → nodes (decrease_level t) ≡ nodes t
unfolding nodes decrease_level
nodes-decrease_level leaf = refl
nodes-decrease_level (node k l x r) =
    ground (arith, nodes-cap_level ((if ltb (level l) (level r) then level l else level r) + 1) r)

-- Rebalancing keeps the sequence.
pub nodes-rebalance : (t : Tree) → nodes (rebalance t) ≡ nodes t
unfolding rebalance
nodes-rebalance t =
    let skewed = on_right (on_right skew) (on_right skew (skew (decrease_level t))) in
    nodes-on_right split nodes-split (split skewed)
    ∙ nodes-split skewed
    ∙ nodes-on_right (on_right skew) (nodes-on_right skew nodes-skew)
        (on_right skew (skew (decrease_level t)))
    ∙ nodes-on_right skew nodes-skew (skew (decrease_level t))
    ∙ nodes-skew (decrease_level t)
    ∙ nodes-decrease_level t

-- What m_comp has to be: a strict weak order.
pub record IsOrder (comp : ℕ → ℕ → Bool) : Type 0 where
  pub asym : (x y : ℕ) → comp x y ≡ true → comp y x ≡ false
  pub between : (x y z : ℕ) → comp x z ≡ true → (comp x y ≡ true) ⊎ (comp y z ≡ true)

module _ (comp : ℕ → ℕ → Bool) (order : IsOrder comp) where
  pub goes_left_trans :
      (x y z : ℕ)
      → goes_left comp x y ≡ true
      → goes_left comp y z ≡ true
      → goes_left comp x z ≡ true
  goes_left_trans x y z p q = ground (
    arith,
    order.between x y z,
    order.between y x z,
    order.between x z y,
    order.between z x y,
    order.between z y x,
    order.between y z x,
    order.asym x z,
    order.asym y z,
    order.asym x y,
  )

  pub goes_left-asym : (x y : ℕ) → goes_left comp x y ≡ true → goes_left comp y x ≡ false
  goes_left-asym x y p = ground (arith, order.asym x y)

  pub goes_left-total : (x y : ℕ) → x ≢ y → goes_left comp x y ≡ false → goes_left comp y x ≡ true
  goes_left-total x y n p = ground (arith, order.asym x y)

  pub goes_left_irrefl : (x : ℕ) → goes_left comp x x ≡ false
  goes_left_irrefl x = ground (arith, order.asym x x)

-- Each node of a sequence goes to the left of those after it.
module _ (comp : ℕ → ℕ → Bool) where
  abbrev pub Before : ℕ → List ℕ → Type 0
  Before x = All (λ y. goes_left comp x y ≡ true)

  abbrev pub After : ℕ → List ℕ → Type 0
  After x = All (λ y. goes_left comp y x ≡ true)

  abbrev pub IsSorted : List ℕ → Type 0
  IsSorted [] = Unit
  IsSorted (x ∷ xs) = Before x xs × IsSorted xs

  pub IsSorted-split :
      (xs : List ℕ) (y : ℕ) (ys : List ℕ)
      → IsSorted (xs ++ y ∷ ys)
      → IsSorted xs × After y xs × Before y ys × IsSorted ys
  IsSorted-split [] y ys s = (tt, tt, s.0, s.1)
  IsSorted-split (x ∷ xs) y ys s =
      let (a, b, c, d) = IsSorted-split xs y ys s.1 in
      let (p, q) = All-split (λ z. goes_left comp x z ≡ true) xs (y ∷ ys) s.0 in
      ((p, a), (q.0, b), c, d)
