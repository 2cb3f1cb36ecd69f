-- ===== src/SortedList/Levels.antt =====
-- include/libzth/list.h: the levels of a SortedList's nodes, which keep the tree balanced.
use zth.Base.{
  ℕ, ◌+◌, ◌^◌, ◌≤◌, ◌<◌, ◌≡◌, ◌≢◌, ◌⊎◌, inl, inr, refl, sym, ap, subst, ◌∙◌, Bool, Bool-cases,
  arith, length, length-append, ◌∷◌,
}
use native.Mathlib.Decide.{dec_lt}
use native.Mathlib.Nat.{two-pow-succ, pow-le-pow_right}
use zth.SortedList.{Tree, leaf, node, level, skew, split, finish, goes_left, insert_into}
use zth.SortedList.Order.{nodes}
use zth.SortedList.Insert.{insert_into_left, insert_into_right}

abbrev pub right : Tree → Tree
right leaf = leaf
right (node k l x r) = r

-- What check() asserts of the levels: a left child is one level below, a right child one level below
-- or on the same level, and a right child of a right child below. So a node above level 1 has both.
abbrev pub IsBalanced : Tree → Type 0
IsBalanced leaf = Unit
IsBalanced (node k l x r) =
    (level l + 1 ≡ k)
    × ((level r + 1 ≡ k) ⊎ (level r ≡ k))
    × (level (right r) < k)
    × IsBalanced l
    × IsBalanced r

-- A tree after an insertion: on the level where it was, or one above, with a right child that is
-- one level below, and then there was a right child on the level of the tree.
abbrev Grows : Tree → Tree → Type 0
Grows t t' =
    (level t' ≡ level t)
    ⊎ ((level t' ≡ level t + 1) × (level (right t') ≡ level t) × (level (right t) ≡ level t))

pub right_le : (t : Tree) → IsBalanced t → level (right t) ≤ level t
right_le leaf b = omega arith
right_le (node k l x r) b = ground arith

right-right_lt :
    (k : ℕ) (l : Tree) (x : ℕ) (r : Tree) → IsBalanced (node k l x r) → level (right r) < k
right-right_lt k l x r b = b.2

pub split_stays :
    (k : ℕ) (l : Tree) (x : ℕ) (r : Tree)
    → level (right r) < k
    → split (node k l x r) ≡ node k l x r
unfolding split
split_stays k l x leaf h = refl
split_stays k l x (node j b y leaf) h = refl
split_stays k l x (node j b y (node i c z d)) h = ground arith

pub split_lifts :
    (k : ℕ) (l : Tree) (x j : ℕ) (b : Tree) (y : ℕ) (c : Tree)
    → 0 < k
    → level c ≡ k
    → split (node k l x (node j b y c)) ≡ node (j + 1) (node k l x b) y c
unfolding split
split_lifts k l x j b y leaf p e = absurd (omega arith)
split_lifts k l x j b y (node i c z d) p e = ground arith

pub skew_stays :
    (k : ℕ) (l : Tree) (x : ℕ) (r : Tree) → level l ≢ k → skew (node k l x r) ≡ node k l x r
unfolding skew
skew_stays k leaf x r h = refl
skew_stays k (node j a y b) x r h = ground arith

pub skew_turns :
    (k j : ℕ) (a : Tree) (y : ℕ) (b : Tree) (x : ℕ) (r : Tree)
    → j ≡ k
    → skew (node k (node j a y b) x r) ≡ node j a y (node k b x r)
unfolding skew
skew_turns k j a y b x r h = ground arith

-- A tree at the end of insert_().
abbrev Result : Tree → Tree → Type 0
Result t t' = IsBalanced t' × Grows t t'

grown_left :
    (k : ℕ) (l : Tree) (j : ℕ) (a : Tree) (y : ℕ) (c : Tree) (x : ℕ) (r : Tree)
    → IsBalanced (node k l x r)
    → IsBalanced (node j a y c)
    → j ≡ k
    → level c + 1 ≡ k
    → Result (node k l x r) (split (node j a y (node k c x r)))
grown_left k l j a y c x r b b' e f = elim b.1 [
  | inl low ↦
      subst (Result (node k l x r)) (sym (split_stays j a y (node k c x r) (omega arith)))
        ((omega arith, inr (sym e), omega arith, b'.3, (f, inl low, b.2, b'.4, b.4)), inl e)
  | inr flat ↦
      subst (Result (node k l x r)) (sym (split_lifts j a y k c x r (omega arith) (omega arith))) (
        (
          omega arith,
          inl (omega arith),
          omega arith,
          (omega arith, inl (omega arith), omega (arith, right_le c b'.4), b'.3, b'.4),
          b.4,
        ),
        inr (refl, flat, flat),
      )
]

insert_left :
    (k : ℕ) (l l' : Tree) (x : ℕ) (r : Tree)
    → IsBalanced (node k l x r)
    → IsBalanced l'
    → Grows l l'
    → Result (node k l x r) (split (skew (node k l' x r)))
insert_left k l l' x r b b' (inl e) =
    subst (Result (node k l x r))
      (sym (ap split (skew_stays k l' x r (omega arith)) ∙ split_stays k l' x r b.2))
      ((omega arith, b.1, b.2, b', b.4), inl refl)
insert_left k l leaf x r b b' (inr g) = absurd (omega arith)
insert_left k l (node j a y c) x r b b' (inr g) =
    let e : j ≡ k = omega arith in
    subst (λ (t : Tree). Result (node k l x r) (split t)) (sym (skew_turns k j a y c x r e))
      (grown_left k l j a y c x r b b' e (omega arith))

-- The level of a right subtree after an insertion.
right-level :
    (k : ℕ) (l : Tree) (x : ℕ) (r r' : Tree)
    → IsBalanced (node k l x r)
    → Grows r r'
    → (level r' + 1 ≡ k) ⊎ ((level r' ≡ k) × ((level (right r') + 1 ≡ k) ⊎ (level r ≡ k)))
right-level k l x r r' b g = ground arith

insert_lifts :
    (k : ℕ) (l : Tree) (x : ℕ) (r r' : Tree)
    → IsBalanced (node k l x r)
    → IsBalanced r'
    → level r' ≡ k
    → level (right r') ≡ k
    → level r ≡ k
    → Result (node k l x r) (split (node k l x r'))
insert_lifts k l x r leaf b b' e f h = absurd (omega arith)
insert_lifts k l x r (node j c y d) b b' e f h =
    subst (Result (node k l x r)) (sym (split_lifts k l x j c y d (omega arith) f)) (
      (
        omega arith,
        inl (omega arith),
        omega (arith, right_le d b'.4),
        (b.0, inl (omega arith), omega (arith, right_le c b'.3), b.3, b'.3),
        b'.4,
      ),
      inr (omega arith, omega arith, h),
    )

insert_right :
    (k : ℕ) (l : Tree) (x : ℕ) (r r' : Tree)
    → IsBalanced (node k l x r)
    → IsBalanced r'
    → Grows r r'
    → Result (node k l x r) (split (skew (node k l x r')))
insert_right k l x r r' b b' g =
    let stays : level (right r') < k
        → (level r' + 1 ≡ k) ⊎ (level r' ≡ k)
        → Result (node k l x r) (split (node k l x r')) =
      λ h d.
        subst (Result (node k l x r)) (sym (split_stays k l x r' h))
          ((b.0, d, h, b.3, b'), inl refl) in
    subst (λ (t : Tree). Result (node k l x r) (split t)) (sym (skew_stays k l x r' (omega arith)))
      (elim (right-level k l x r r' b g) [
        | inl e ↦ stays (omega (arith, right_le r' b')) (inl e)
        | inr (e, inl f) ↦ stays (omega arith) (inr e)
        | inr (e, inr f) ↦ elim (dec_lt (level (right r')) k) [
          | yes h ↦ stays h (inr e)
          | no h ↦ insert_lifts k l x r r' b b' e (omega (arith, right_le r' b')) f
        ]
      ])

module _ (comp : ℕ → ℕ → Bool) where
  insert_grows :
      (x : ℕ) (t : Tree) (head : ℕ) → IsBalanced t → Result t (insert_into comp x t head).0
  unfolding finish
  insert_grows x leaf head b =
      unfold insert_into in
      ((omega arith, inl (omega arith), omega arith, tt, tt), inr (refl, refl, refl))
  insert_grows x (node k l t r) head b = elim (Bool-cases (goes_left comp x t)) [
    | inl e ↦
        let (b', g) = insert_grows x l head b.3 in
        subst (λ (p : Tree × ℕ). Result (node k l t r) p.0)
          (sym (insert_into_left comp x k l t r head e))
          (insert_left k l (insert_into comp x l head).0 t r b b' g)
    | inr e ↦
        let (b', g) = insert_grows x r head b.4 in
        subst (λ (p : Tree × ℕ). Result (node k l t r) p.0)
          (sym (insert_into_right comp x k l t r head e))
          (insert_right k l t r (insert_into comp x r head).0 b b' g)
  ]

  pub insert_into-IsBalanced :
      (x : ℕ) (t : Tree) (head : ℕ) → IsBalanced t → IsBalanced (insert_into comp x t head).0
  insert_into-IsBalanced x t head b = (insert_grows x t head b).0

pow_suc : (n k : ℕ) → n + 1 ≡ k → 2 ^ k ≡ 2 ^ n + 2 ^ n
pow_suc n k e = ap (λ (m : ℕ). 2 ^ m) (sym e ∙ omega arith) ∙ two-pow-succ n

pub level_bound : (t : Tree) → IsBalanced t → 2 ^ level t ≤ length (nodes t) + 1
unfolding nodes
level_bound leaf b = omega arith
level_bound (node k l x r) b =
    let higher : 2 ^ level l ≤ 2 ^ level r =
      pow-le-pow_right {n = 2} (omega arith) {i = level l} {j = level r} (omega arith) in
    omega (
      arith,
      pow_suc (level l) k b.0,
      higher,
      level_bound l b.3,
      level_bound r b.4,
      length-append (nodes l) (x ∷ nodes r),
    )
