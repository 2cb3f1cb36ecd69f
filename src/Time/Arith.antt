-- ===== src/Time/Arith.antt =====
-- include/libzth/time.h: the arithmetic of TimeInterval against the integers, in nanoseconds.
use zth.Base.{
  ◌+◌, ◌*◌, ◌&&◌, ◌≡◌, refl, inl, inr, Bool, true, false, not, arith, if◌then◌else◌, Bool-cases,
}
use zth.Base.Int.{ℤ, pos, negsuc, pos_part, neg_part, ◌+ℤ◌, ◌-ℤ◌, negate, ltb_ℤ, int_laws}
use zth.Time.Interval.{
  TimeInterval, saturates, add, sub, neg, billion, carry, borrow, is_abs_bigger_than, same,
}

-- A number of seconds in nanoseconds.
to_ns : ℤ → ℤ
to_ns (pos n) = pos (n * 1_000_000_000)
to_ns (negsuc n) = negsuc (n * 1_000_000_000 + 999_999_999)

to_ns_parts :
    (a : ℤ)
    → pos_part (to_ns a) + 1_000_000_000 * neg_part a
      ≡ neg_part (to_ns a) + 1_000_000_000 * pos_part a
unfolding to_ns
to_ns_parts (pos n) = omega arith
to_ns_parts (negsuc n) = omega arith

ruleset ns_laws = (int_laws, to_ns_parts)

-- The length in nanoseconds, without the sign.
pub abs_ns : TimeInterval → ℤ
abs_ns t = to_ns t.sec +ℤ t.nsec

-- The length as numbers, for the arithmetic tactics.
pub abs_parts :
    (t : TimeInterval)
    → pos_part (abs_ns t) + 1_000_000_000 * neg_part t.sec + neg_part t.nsec
      ≡ neg_part (abs_ns t) + 1_000_000_000 * pos_part t.sec + pos_part t.nsec
unfolding abs_ns
abs_parts t = omega ns_laws

abbrev pub signed : Bool → ℤ → ℤ
signed b a = if b then negate a else a

-- The same with the sign.
pub ns : TimeInterval → ℤ
ns t = signed t.negative (abs_ns t)

pub ns-signed : (t : TimeInterval) → ns t ≡ signed t.negative (abs_ns t)
unfolding ns
ns-signed t = refl

ns-if : (b : Bool) (x y : TimeInterval) → ns (if b then x else y) ≡ (if b then ns x else ns y)
ns-if true x y = refl
ns-if false x y = refl

ns_of : (x : TimeInterval) {b : Bool} {a : ℤ} → x.negative ≡ b → abs_ns x ≡ a → ns x ≡ signed b a
unfolding ns
ns_of x p q = cc

signed_sum :
    (b c big : Bool) (m t : ℤ)
    → (if same c b
        then signed b (m +ℤ t)
        else if big
        then signed (not b) (t -ℤ m)
        else signed b (m -ℤ t))
      ≡ signed b m +ℤ signed c t
signed_sum true true big m t = omega int_laws
signed_sum false false big m t = refl
signed_sum true false true m t = omega int_laws
signed_sum true false false m t = omega int_laws
signed_sum false true true m t = omega int_laws
signed_sum false true false m t = omega int_laws

abs_ns-carry : (m : TimeInterval) → abs_ns (carry m) ≡ abs_ns m
unfolding abs_ns carry
abs_ns-carry m = elim (Bool-cases (ltb_ℤ billion m.nsec)) [
  | inl e ↦ rw e (omega ns_laws)
  | inr e ↦ rw e
]

abs_ns-borrow : (m : TimeInterval) → abs_ns (borrow m) ≡ abs_ns m
unfolding abs_ns borrow
abs_ns-borrow m = elim (Bool-cases (ltb_ℤ m.nsec (pos 0))) [
  | inl e ↦ rw e (omega ns_laws)
  | inr e ↦ rw e
]

module _ (m t : TimeInterval) where
  -- The three results of an addition that does not saturate.
  unfoldable pub sum : TimeInterval
  sum = carry (record m { sec = m.sec +ℤ t.sec; nsec = m.nsec +ℤ t.nsec })

  unfoldable pub less : TimeInterval
  less = borrow (record m { sec = m.sec -ℤ t.sec; nsec = m.nsec -ℤ t.nsec })

  unfoldable pub flipped : TimeInterval
  flipped =
      borrow (record { sec = t.sec -ℤ m.sec; nsec = t.nsec -ℤ m.nsec; negative = not m.negative })

  pub sum_ns : abs_ns sum ≡ abs_ns m +ℤ abs_ns t
  unfolding sum
  sum_ns = rw (abs_ns-carry _) (unfold abs_ns in omega ns_laws)

  pub less_ns : abs_ns less ≡ abs_ns m -ℤ abs_ns t
  unfolding less
  less_ns = rw (abs_ns-borrow _) (unfold abs_ns in omega ns_laws)

  flipped_ns : abs_ns flipped ≡ abs_ns t -ℤ abs_ns m
  unfolding flipped
  flipped_ns = rw (abs_ns-borrow _) (unfold abs_ns in omega ns_laws)

  pub sign_kept :
      (sum.negative ≡ m.negative)
      × (less.negative ≡ m.negative)
      × (flipped.negative ≡ not m.negative)
  unfolding sum less flipped carry borrow
  sign_kept = ground arith

  pub add_cases :
      (same t.negative m.negative && saturates m t) ≡ false
      → add m t ≡ (
          if same t.negative m.negative
          then sum
          else if is_abs_bigger_than t m
          then flipped
          else less)
  unfolding add sum less flipped
  add_cases h = ground arith

  -- The signed length of a sum of two intervals is the sum of their signed lengths, unless the
  -- addition saturates.
  pub ns-add : (same t.negative m.negative && saturates m t) ≡ false → ns (add m t) ≡ ns m +ℤ ns t
  unfolding ns
  ns-add h =
      rw (add_cases h, ns-if (same t.negative m.negative) _ _, ns-if (is_abs_bigger_than t m) _ _)
        (rw
          (
            ns_of sum sign_kept.0 sum_ns,
            ns_of less sign_kept.1 less_ns,
            ns_of flipped sign_kept.2 flipped_ns,
          )
          (signed_sum m.negative t.negative (is_abs_bigger_than t m) (abs_ns m) (abs_ns t)))

signed-not : (b : Bool) (a : ℤ) → signed (not b) a ≡ negate (signed b a)
signed-not true a = omega int_laws
signed-not false a = refl

pub abs_ns-neg : (t : TimeInterval) → abs_ns (neg t) ≡ abs_ns t
unfolding abs_ns neg
abs_ns-neg t = refl

ns-neg : (t : TimeInterval) → ns (neg t) ≡ negate (ns t)
unfolding ns neg abs_ns
ns-neg t = signed-not t.negative _

-- The signed length of a difference of two intervals is the difference of their signed lengths,
-- unless the addition of the negated one saturates.
pub ns-sub :
    (m t : TimeInterval)
    → (same (not t.negative) m.negative && saturates m (neg t)) ≡ false
    → ns (sub m t) ≡ ns m -ℤ ns t
unfolding sub
ns-sub m t h = rw (ns-add m (neg t) (unfold neg in h), ns-neg t) (omega int_laws)
