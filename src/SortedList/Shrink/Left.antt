-- ===== src/SortedList/Shrink/Left.antt =====
-- include/libzth/list.h: a tree whose left subtree is lower after delete_().
use zth.Base.{ℕ, ◌+◌, ◌≤◌, ◌<◌, ◌≡◌, ◌⊎◌, inl, inr, refl, sym, ap, subst, ◌∙◌, arith}
use zth.SortedList.{Tree, leaf, node, level, skew, split, on_right, cap_level, rebalance}
use zth.SortedList.Levels.{
  right, IsBalanced, right_le, split_stays, split_lifts, skew_stays, skew_turns,
}
use zth.SortedList.Shrink.{Result, restored, decrease_both, cap_low, restored_same, restored_lifted}

-- The left subtree is lower than before, and the right one one level below.
pub drops_left :
    (k : ℕ) (l l' : Tree) (x : ℕ) (r : Tree)
    → IsBalanced (node k l x r)
    → IsBalanced l'
    → level l' + 1 ≡ level l
    → level r + 1 ≡ k
    → Result (node k l x r) (rebalance (node k l' x r))
unfolding rebalance
drops_left k l l' x leaf b c e h = absurd (omega (arith, b.0, e, h))
drops_left k l l' x (node j p y d) b c e h =
    let m : rebalance (node k l' x (node j p y d)) ≡ restored (node j l' x (node j p y d)) =
      ap restored (
        decrease_both k j l' x (node j p y d) h (inl (omega (arith, b.0, e, h), omega arith))
        ∙ ap (node j l' x) (cap_low j (node j p y d) (omega arith))) in
    let low : level l' + 1 ≡ j = omega (arith, b.0, e, h) in
    elim b.4.1 [
      | inl f ↦
          let t' : IsBalanced (node j l' x (node j p y d)) =
            (low, inr refl, omega (arith, f), c, b.4) in
          subst (Result (node k l x (node j p y d)))
            (sym (m ∙ restored_same (node j l' x (node j p y d)) t')) (t', inr h)
      | inr f ↦
          subst (Result (node k l x (node j p y d)))
            (sym (m ∙ restored_lifted j l' x p y d low f b.4))
            (
              ((
                refl,
                inl (omega (arith, f)),
                omega (arith, f, b.4.2),
                (low, inl (omega (arith, b.4.0)), omega (arith, right_le p b.4.3, b.4.0), c, b.4.3),
                b.4.4,
              )),
              inl (h, omega (arith, f)),
            )
    ]

cap_high :
    (j k : ℕ) (l : Tree) (x : ℕ) (r : Tree) → j < k → cap_level j (node k l x r) ≡ node j l x r
cap_high j k l x r h = ground (arith, h)

-- A left child that is lower, and a right child with a left child on its level.
restored_turned :
    (i : ℕ) (l : Tree) (x : ℕ) (e : Tree) (z : ℕ) (f : Tree) (y : ℕ) (d : Tree)
    → level l + 1 ≡ i
    → restored (node i l x (node i (node i e z f) y d))
      ≡ on_right split (split (node i l x (node i e z (skew (node i f y d)))))
restored_turned i l x e z f y d h =
    ap (λ t. on_right split (split (on_right (on_right skew) (on_right skew t))))
      (skew_stays i l x (node i (node i e z f) y d) (omega (arith, h)))
    ∙ ap (λ r. on_right split (split (on_right (on_right skew) (node i l x r))))
        (skew_turns i i e z f y d refl)

-- That child is lifted.
turned_lifts :
    (i : ℕ) (l : Tree) (x : ℕ) (e : Tree) (z : ℕ) (f : Tree) (y : ℕ) (d t : Tree)
    → level l + 1 ≡ i
    → skew (node i f y d) ≡ t
    → level t ≡ i
    → restored (node i l x (node i (node i e z f) y d)) ≡ node (i + 1) (node i l x e) z (split t)
turned_lifts i l x e z f y d t h s q =
    restored_turned i l x e z f y d h
    ∙ ap (λ t. on_right split (split (node i l x (node i e z t)))) s
    ∙ ap (on_right split) (split_lifts i l x i e z t (omega (arith, h)) q)

-- A tree that may come right of the one that is lifted from level i.
abbrev Fits : ℕ → Tree → Type 0
Fits i s = IsBalanced s × ((level s ≡ i) ⊎ (level s ≡ i + 1)) × (level (right s) ≤ i)

split-Fits :
    (i : ℕ) (f : Tree) (y : ℕ) (d : Tree)
    → level f + 1 ≡ i
    → level d ≡ i
    → IsBalanced f
    → IsBalanced d
    → Fits i (split (node i f y d))
split-Fits i f y leaf h e b c = absurd (omega (arith, h, e))
split-Fits i f y (node m g w r) h e b c = elim c.1 [
  | inl low ↦
      subst (Fits i) (sym (split_stays i f y (node m g w r) (omega (arith, low, e))))
        ((h, inr e, omega (arith, low, e), b, c), inl refl, omega (arith, e))
  | inr flat ↦
      subst (Fits i) (sym (split_lifts i f y m g w r (omega (arith, h)) (omega (arith, flat, e)))) (
        (
          omega (arith, e),
          inl (omega (arith, flat)),
          omega (arith, c.2, e),
          (h, inl (omega (arith, c.0, e)), omega (arith, right_le g c.3, c.0, e), b, c.3),
          c.4,
        ),
        inr (omega (arith, e)),
        omega (arith, flat, e),
      )
]

-- The right subtree is on the level of the tree.
drops_below :
    (i j k : ℕ) (l l' : Tree) (x : ℕ) (e : Tree) (z : ℕ) (f : Tree) (y : ℕ) (d : Tree)
    → IsBalanced (node k l x (node j (node i e z f) y d))
    → IsBalanced l'
    → level l' + 1 ≡ i
    → j ≡ k
    → (s : Tree) × (restored (node i l' x (node i (node i e z f) y d))
        ≡ node (i + 1) (node i l' x e) z s)
      × Fits i s
drops_below i j k l l' x e z leaf y d b c h r =
    let s = skew_stays i leaf y d (omega (arith, h)) in
    (
      split (node i leaf y d),
      turned_lifts i l' x e z leaf y d (node i leaf y d) h s refl,
      split-Fits i leaf y d (ground (arith, b.4.3.1, h)) (ground (arith, b.4.1, b.4.0, b.2, r)) tt
          b.4.4,
    )
drops_below i j k l l' x e z (node m p u q) y d b c h r = elim b.4.3.1 [
  | inl low ↦
      let f = node m p u q in
      let s = skew_stays i f y d (omega (arith, low)) in
      (
        split (node i f y d),
        turned_lifts i l' x e z f y d (node i f y d) h s refl,
        split-Fits i f y d low (ground (arith, b.4.1, b.4.0, b.2, r)) b.4.3.4 b.4.4,
      )
  | inr flat ↦
      let s = skew_turns i m p u q y d flat in
      let lifted =
        split_lifts m p u i q y d (omega (arith, flat, h))
          (ground (arith, flat, b.4.1, b.4.0, b.2, r)) in
      (
        node (i + 1) (node m p u q) y d,
        turned_lifts i l' x e z (node m p u q) y d (node m p u (node i q y d)) h s flat
            ∙ ap (node (i + 1) (node i l' x e) z) lifted,
        (
          (
            omega (arith, flat),
            inl (ground (arith, b.4.1, b.4.0, b.2, r)),
            omega (arith, right_le d b.4.4, b.2, b.4.0, r),
            b.4.3.4,
            b.4.4,
          ),
          inr refl,
          ground (arith, b.4.1, b.4.0, b.2, r),
        ),
      )
]

pub drops_left_flat :
    (k : ℕ) (l l' : Tree) (x : ℕ) (r : Tree)
    → IsBalanced (node k l x r)
    → IsBalanced l'
    → level l' + 1 ≡ level l
    → level r ≡ k
    → Result (node k l x r) (rebalance (node k l' x r))
unfolding rebalance
drops_left_flat k l l' x leaf b c e h = absurd (omega (arith, b.0, e, h))
drops_left_flat k l l' x (node j leaf y d) b c e h = absurd (omega (arith, b.0, b.4.0, e, h))
drops_left_flat k l l' x (node j (node i p z f) y d) b c e h =
    let low : level l' + 1 ≡ i = omega (arith, b.0, b.4.0, e, h) in
    let (s, q, m) = drops_below i j k l l' x p z f y d b c low h in
    subst (Result (node k l x (node j (node i p z f) y d)))
      (sym (
        ap restored (
          decrease_both k i l' x (node j (node i p z f) y d) (omega (arith, b.4.0, h))
            (inl (low, omega (arith, b.4.0, h)))
          ∙ ap (node i l' x) (cap_high i j (node i p z f) y d (omega (arith, b.4.0, h))))
        ∙ q))
      (
        (
          refl,
          ground (arith, m.1),
          omega (arith, m.2),
          (low, inl b.4.3.0, omega (arith, right_le p b.4.3.3, b.4.3.0), c, b.4.3.3),
          m.0,
        ),
        inl (omega (arith, b.4.0, h), ground (arith, m.1, b.4.0, h)),
      )
