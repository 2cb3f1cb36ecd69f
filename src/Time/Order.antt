-- ===== src/Time/Order.antt =====
-- include/libzth/time.h: the order of TimeInterval and of Timestamp against that of the integers,
-- and Timestamp arithmetic there and back.
use zth.Base.{◌+◌, ◌≤◌, ◌≡◌, ◌↔◌, ◌⊎◌, refl, ap, Bool, true, false, not, ◌&&◌, ◌||◌, arith, ◌∙◌}
use zth.Base.Int.{
  ℤ, pos, pos_part, neg_part, ◌-ℤ◌, -ℤ_parts, ◌<ℤ◌, negate_parts, one_part, int_laws,
}
use zth.Time.Interval.{
  TimeInterval, time_max, is_infinite, is_abs_bigger_than, is_bigger_than, saturates, add, neg, sub,
}
use zth.Time.Stamp.{Timestamp, interval, is_before, diff, time_to}
use zth.Time.Stamp
use zth.Time.Arith.{
  abs_ns, ns, abs_parts, signed, ns-signed, add_cases, less, sum, sign_kept, less_ns, sum_ns,
  abs_ns-neg,
}
use zth.Time.Normal.{IsNormal, sum-IsNormal, less-IsNormal}

abs_bigger_iff :
    (a t : TimeInterval)
    → IsNormal a
    → IsNormal t
    → (is_abs_bigger_than a t ≡ true) ↔ (abs_ns t <ℤ abs_ns a)
unfolding is_abs_bigger_than
abs_bigger_iff a t ha ht = ground (arith, abs_parts a, abs_parts t)

-- Normal intervals of one length have the same fields.
normal_unique :
    (a t : TimeInterval)
    → IsNormal a
    → IsNormal t
    → abs_ns a ≡ abs_ns t
    → (a.sec ≡ t.sec) × (a.nsec ≡ t.nsec)
normal_unique a t ha ht e = ground (arith, abs_parts a, abs_parts t, ap pos_part e, ap neg_part e)

abs_nonneg : (t : TimeInterval) → IsNormal t → neg_part (abs_ns t) ≡ 0
abs_nonneg t h = ground (arith, abs_parts t, one_part (abs_ns t))

signed_order :
    (b c g l : Bool) (x y : ℤ)
    → neg_part x ≡ 0
    → neg_part y ≡ 0
    → (g ≡ true) ↔ (y <ℤ x)
    → (l ≡ true) ↔ (x <ℤ y)
    → (((not b && c) || (not b && not c && g) || (b && c && l)) ≡ true)
      ↔ ((signed c y <ℤ signed b x) ⊎ ((signed b x ≡ signed c y) × (b ≡ false) × (c ≡ true)))
signed_order true true g l x y p q hg hl = ground (arith, negate_parts x, negate_parts y)
signed_order true false g l x y p q hg hl = ground (arith, negate_parts x, negate_parts y)
signed_order false true g l x y p q hg hl = ground (arith, negate_parts x, negate_parts y)
signed_order false false g l x y p q hg hl = ground (arith, negate_parts x, negate_parts y)

pub bigger_iff :
    (m t : TimeInterval)
    → IsNormal m
    → IsNormal t
    → (is_bigger_than m t ≡ true)
      ↔ ((ns t <ℤ ns m) ⊎ ((ns m ≡ ns t) × (m.negative ≡ false) × (t.negative ≡ true)))
unfolding is_bigger_than
bigger_iff m t hm ht =
    rw (ns-signed m, ns-signed t)
      (signed_order m.negative t.negative (is_abs_bigger_than m t) (is_abs_bigger_than t m)
        (abs_ns m) (abs_ns t) (abs_nonneg m hm) (abs_nonneg t ht) (abs_bigger_iff m t hm ht)
        (abs_bigger_iff t m ht hm))

module _ (a b : Timestamp) (ha : IsNormal (interval a)) (hb : IsNormal (interval b))
    (ordered : is_before b a ≡ false) (finite : is_infinite (interval b) ≡ false) where
  elapsed : TimeInterval
  elapsed = less (interval b) (neg (interval a))

  not_bigger : is_abs_bigger_than (neg (interval a)) (interval b) ≡ false
  unfolding is_abs_bigger_than neg is_before
  not_bigger = ground arith

  diff-elapsed : diff b a ≡ elapsed
  unfolding elapsed diff time_to sub neg
  diff-elapsed = rw (add_cases (interval b) (neg (interval a)) refl, not_bigger)

  elapsed-IsNormal : IsNormal elapsed
  unfolding elapsed neg
  elapsed-IsNormal = less-IsNormal (interval b) (neg (interval a)) hb ha not_bigger

  elapsed_positive : elapsed.negative ≡ false
  unfolding elapsed
  elapsed_positive = (sign_kept (interval b) (neg (interval a))).1

  elapsed_ns : abs_ns elapsed ≡ abs_ns (interval b) -ℤ abs_ns (interval a)
  unfolding elapsed
  elapsed_ns =
      less_ns (interval b) (neg (interval a))
      ∙ ap (λ (x : ℤ). abs_ns (interval b) -ℤ x) (abs_ns-neg (interval a))

  -- The seconds that passed fit in what is left of time_t.
  elapsed_sec : pos_part elapsed.sec + pos_part a.sec ≤ pos_part b.sec
  elapsed_sec = ground (
    arith,
    abs_parts elapsed,
    abs_parts (interval a),
    abs_parts (interval b),
    -ℤ_parts (abs_ns (interval b)) (abs_ns (interval a)),
    ap pos_part elapsed_ns,
    ap neg_part elapsed_ns,
    elapsed-IsNormal,
  )

  no_overflow : saturates (interval a) elapsed ≡ false
  unfolding saturates is_infinite
  no_overflow = ground (
    arith,
    elapsed_sec,
    elapsed-IsNormal,
    -ℤ_parts time_max a.sec,
    -ℤ_parts (time_max -ℤ a.sec) (pos 1),
  )

  again : TimeInterval
  again = add (interval a) elapsed

  again-sum : again ≡ sum (interval a) elapsed
  unfolding again
  again-sum =
      add_cases (interval a) elapsed (rw (no_overflow, elapsed_positive)) ∙ rw elapsed_positive

  again_ns : abs_ns again ≡ abs_ns (interval b)
  again_ns = rw (again-sum, sum_ns (interval a) elapsed, elapsed_ns) (omega int_laws)

  again-IsNormal : (pos_part b.nsec ≡ 0 → pos_part a.nsec ≡ 0) → IsNormal again
  again-IsNormal h = rw again-sum (
      sum-IsNormal (interval a) elapsed ha elapsed-IsNormal λ e. ground (
        arith,
        abs_parts elapsed,
        abs_parts (interval a),
        abs_parts (interval b),
        -ℤ_parts (abs_ns (interval b)) (abs_ns (interval a)),
        ap pos_part elapsed_ns,
        ap neg_part elapsed_ns,
        elapsed-IsNormal,
      ))

  -- A normal timestamp, plus the time from there to a normal later or equal one that is not
  -- infinite, is the later one, if its nanosecond field is not 0 or that of both is.
  pub add-diff : (pos_part b.nsec ≡ 0 → pos_part a.nsec ≡ 0) → Stamp.add a (diff b a) ≡ b
  unfolding Stamp.add again
  add-diff h =
      rw diff-elapsed
        (ground (arith, normal_unique again (interval b) (again-IsNormal h) hb again_ns))
