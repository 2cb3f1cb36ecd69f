-- ===== src/Time/Normal.antt =====
-- include/libzth/time.h: when the arithmetic of TimeInterval gives a normal interval, that is one
-- with a nanosecond field in [0, BILLION).
use zth.Base.{◌+◌, ◌<◌, ◌≡◌, ◌≢◌, ◌↔◌, inl, inr, true, false, ◌&&◌, arith, Bool-cases}
use zth.Base.Int.{pos, pos_part, neg_part, ◌+ℤ◌, +ℤ_parts, -ℤ_parts, +ℤ_bounds, -ℤ_bounds, int_laws}
use zth.Time.Interval.{
  TimeInterval, is_normal, saturates, add, billion, carry, borrow, is_abs_bigger_than, same,
}
use zth.Time.Arith.{add_cases, sum, less, flipped}

-- isNormal()
abbrev pub IsNormal : TimeInterval → Type 0
IsNormal t = (neg_part t.sec ≡ 0) × (neg_part t.nsec ≡ 0) × (pos_part t.nsec < 1_000_000_000)

pub is_normal_iff : (t : TimeInterval) → (is_normal t ≡ true) ↔ IsNormal t
unfolding is_normal
is_normal_iff t = ground arith

ruleset bound_laws = (int_laws, +ℤ_bounds, -ℤ_bounds)

carry-IsNormal :
    (m : TimeInterval)
    → neg_part m.sec ≡ 0
    → neg_part m.nsec ≡ 0
    → pos_part m.nsec < 2_000_000_000
    → pos_part m.nsec ≢ 1_000_000_000
    → IsNormal (carry m)
unfolding carry
carry-IsNormal m p q r s = ground (arith, +ℤ_parts m.sec (pos 1), -ℤ_parts m.nsec billion)

borrow-IsNormal :
    (m : TimeInterval)
    → neg_part m.sec ≡ 0
    → pos_part m.nsec < 1_000_000_000
    → neg_part m.nsec < 1_000_000_000
    → (0 < neg_part m.nsec → 0 < pos_part m.sec)
    → IsNormal (borrow m)
unfolding borrow
borrow-IsNormal m p q r s = ground (arith, -ℤ_parts m.sec (pos 1), +ℤ_parts m.nsec billion)

module _ (m t : TimeInterval) (hm : IsNormal m) (ht : IsNormal t) where
  pub sum-IsNormal : pos_part m.nsec + pos_part t.nsec ≢ 1_000_000_000 → IsNormal (sum m t)
  unfolding sum
  sum-IsNormal h =
      carry-IsNormal _ (omega bound_laws) (omega bound_laws) (omega bound_laws) (omega bound_laws)

  pub less-IsNormal : is_abs_bigger_than t m ≡ false → IsNormal (less m t)
  unfolding less is_abs_bigger_than
  less-IsNormal h =
      borrow-IsNormal _ (ground (arith, -ℤ_parts m.sec t.sec)) (omega bound_laws) (omega bound_laws)
        (λ k. ground (arith, -ℤ_parts m.sec t.sec, -ℤ_parts m.nsec t.nsec))

  flipped-IsNormal : is_abs_bigger_than t m ≡ true → IsNormal (flipped m t)
  unfolding flipped is_abs_bigger_than
  flipped-IsNormal h =
      borrow-IsNormal _ (ground (arith, -ℤ_parts t.sec m.sec)) (omega bound_laws) (omega bound_laws)
        (λ k. ground (arith, -ℤ_parts t.sec m.sec, -ℤ_parts t.nsec m.nsec))

  add-IsNormal :
      (same t.negative m.negative && saturates m t) ≡ false
      → (same t.negative m.negative ≡ true → pos_part m.nsec + pos_part t.nsec ≢ 1_000_000_000)
      → IsNormal (add m t)
  add-IsNormal h e = rw (add_cases m t h) (elim (Bool-cases (same t.negative m.negative)) [
    | inl s ↦ rw s (sum-IsNormal (e s))
    | inr s ↦ rw s (elim (Bool-cases (is_abs_bigger_than t m)) [
      | inl b ↦ rw b (flipped-IsNormal b)
      | inr b ↦ rw b (less-IsNormal b)
    ])
  ])

  exact_second :
      same t.negative m.negative ≡ true
      → saturates m t ≡ false
      → pos_part m.nsec + pos_part t.nsec ≡ 1_000_000_000
      → ¬ IsNormal (add m t)
  exact_second s h e n = absurd (omega (arith, full, n.2))
    where
      stuck : sum m t ≡ record m { sec = m.sec +ℤ t.sec; nsec = m.nsec +ℤ t.nsec }
      stuck = unfold sum carry in ground (arith, +ℤ_parts m.nsec t.nsec, +ℤ_bounds m.nsec t.nsec)

      full : pos_part (add m t).nsec ≡ 1_000_000_000
      full = rw (add_cases m t (ground arith), s, stuck) (omega bound_laws)

  -- The sum of two normal intervals is normal, if the addition does not saturate, exactly when
  -- it is not of two of the same sign in which the nanosecond fields add up to one second.
  pub add-IsNormal_iff :
      (same t.negative m.negative && saturates m t) ≡ false
      → IsNormal (add m t) ↔ (
          ¬ (
            (same t.negative m.negative ≡ true)
            × (pos_part m.nsec + pos_part t.nsec ≡ 1_000_000_000)))
  add-IsNormal_iff h =
      (λ n (s, e). exact_second s (ground (arith, h, s)) e n, λ k. add-IsNormal h (λ s e. k (s, e)))
