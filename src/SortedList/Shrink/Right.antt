-- ===== src/SortedList/Shrink/Right.antt =====
-- include/libzth/list.h: a tree whose right subtree is lower after delete_().
use zth.Base.{ℕ, ◌+◌, ◌≡◌, ◌⊎◌, inl, inr, refl, sym, ap, subst, ◌∙◌, arith}
use zth.SortedList.{Tree, leaf, node, level, skew, split, on_right, rebalance}
use zth.SortedList.Levels.{IsBalanced, right_le, split_stays, split_lifts, skew_stays, skew_turns}
use zth.SortedList.Shrink.{Result, restored, decrease_both, skew_right, cap_low}

stays_low :
    (j : ℕ) (a : Tree) (y : ℕ) (q : Tree) (x : ℕ) (r : Tree)
    → IsBalanced r
    → level q + 1 ≡ j
    → level r + 1 ≡ j
    → on_right split (split (node j a y (on_right skew (skew (node j q x r)))))
      ≡ node j a y (node j q x r)
stays_low j a y q x r c f h =
    ap (λ t. on_right split (split (node j a y (on_right skew t))))
      (skew_stays j q x r (omega (arith, f)))
    ∙ ap (λ t. on_right split (split (node j a y (node j q x t)))) (skew_right r c)
    ∙ ap (on_right split) (split_stays j a y (node j q x r) (omega (arith, h)))
    ∙ ap (node j a y) (split_stays j q x r (omega (arith, right_le r c, h)))

lifts_low :
    (j : ℕ) (a : Tree) (y m : ℕ) (p : Tree) (u : ℕ) (w : Tree) (x : ℕ) (r : Tree)
    → IsBalanced r
    → m ≡ j
    → level w + 1 ≡ j
    → level r + 1 ≡ j
    → on_right split (split (node j a y (on_right skew (skew (node j (node m p u w) x r)))))
      ≡ node (j + 1) (node j a y p) u (node j w x r)
lifts_low j a y m p u w x r c f g h =
    ap (λ t. on_right split (split (node j a y (on_right skew t)))) (skew_turns j m p u w x r f)
    ∙ ap (λ t. on_right split (split (node j a y (node m p u t))))
        (skew_stays j w x r (omega (arith, g)))
    ∙ ap (on_right split) (split_lifts j a y m p u (node j w x r) (omega (arith, h)) refl)
    ∙ ap (node (m + 1) (node j a y p) u) (split_stays j w x r (omega (arith, right_le r c, h)))
    ∙ ap (λ n. node (n + 1) (node j a y p) u (node j w x r)) f

-- The tree at the end, which either has a right child on its level, or is lifted.
lowered :
    (j : ℕ) (a : Tree) (y : ℕ) (q : Tree) (x : ℕ) (r : Tree)
    → IsBalanced (node j a y q)
    → IsBalanced r
    → level r + 1 ≡ j
    → ((level q + 1 ≡ j)
        × (on_right split (split (node j a y (on_right skew (skew (node j q x r)))))
            ≡ node j a y (node j q x r)))
      ⊎ ((p : Tree) × (u : ℕ) × (w : Tree) × (on_right split
              (split (node j a y (on_right skew (skew (node j q x r)))))
            ≡ node (j + 1) (node j a y p) u (node j w x r))
          × (level p + 1 ≡ j)
          × (level w + 1 ≡ j)
          × IsBalanced p
          × IsBalanced w)
lowered j a y leaf x r b c h =
    let f : level leaf + 1 ≡ j = ground (arith, b.1, h) in inl (f, stays_low j a y leaf x r c f h)
lowered j a y (node m p u w) x r b c h = elim b.1 [
  | inl low ↦ inl (low, stays_low j a y (node m p u w) x r c low h)
  | inr flat ↦
      let g : level w + 1 ≡ j = ground (arith, b.4.1, flat, b.2) in
      inr (
        p,
        u,
        w,
        lifts_low j a y m p u w x r c flat g h,
        omega (arith, b.4.0, flat),
        g,
        b.4.3,
        b.4.4,
      )
]

-- The right subtree is lower than before, and was below.
pub drops_right :
    (k : ℕ) (l : Tree) (x : ℕ) (r r' : Tree)
    → IsBalanced (node k l x r)
    → IsBalanced r'
    → level r' + 1 ≡ level r
    → level r + 1 ≡ k
    → Result (node k l x r) (rebalance (node k l x r'))
unfolding rebalance
drops_right k leaf x r r' b c e h = absurd (omega (arith, b.0, e, h))
drops_right k (node j a y q) x r r' b c e h =
    let low : level r' + 1 ≡ j = omega (arith, b.0, e, h) in
    let m : rebalance (node k (node j a y q) x r') ≡ restored (node j (node j a y q) x r') =
      ap restored (
        decrease_both k j (node j a y q) x r' b.0 (inr (low, omega arith))
        ∙ ap (node j (node j a y q) x) (cap_low j r' (omega (arith, low)))) in
    let n : restored (node j (node j a y q) x r')
        ≡ on_right split (split (node j a y (on_right skew (skew (node j q x r'))))) =
      ap (λ t. on_right split (split (on_right (on_right skew) (on_right skew t))))
        (skew_turns j j a y q x r' refl) in
    elim (lowered j a y q x r' b.3 c low) [
      | inl (f, s) ↦ subst (Result (node k (node j a y q) x r)) (sym (m ∙ n ∙ s)) (
        (
          b.3.0,
          inr refl,
          omega (arith, low),
          b.3.3,
          (f, inl low, omega (arith, right_le r' c, low), b.3.4, c),
        ),
        inr b.0,
      )
      | inr (p, u, w, s, f, g, i, o) ↦
          subst (Result (node k (node j a y q) x r)) (sym (m ∙ n ∙ s)) (
            (
              refl,
              inl refl,
              omega (arith, low),
              (b.3.0, inl f, omega (arith, right_le p i, f), b.3.3, i),
              (g, inl low, omega (arith, right_le r' c, low), o, c),
            ),
            inl (b.0, omega (arith, b.0, h)),
          )
    ]
