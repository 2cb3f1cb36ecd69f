-- ===== src/Time/Interval.antt =====
-- include/libzth/time.h: class TimeInterval.
use zth.Base.{◌-◌, ◌^◌, Bool, true, false, ◌&&◌, ◌||◌, not, if◌then◌else◌}
use zth.Base.Int.{ℤ, pos, ◌+ℤ◌, ◌-ℤ◌, ltb_ℤ, leb_ℤ, eqb_ℤ}

-- TimeInterval::BILLION
abbrev pub billion : ℤ
billion = pos 1_000_000_000

-- std::numeric_limits<time_t>::max(), and half of it, rounded down.
abbrev pub time_max : ℤ
time_max = pos (2 ^ 63 - 1)

abbrev pub half_time_max : ℤ
half_time_max = pos (2 ^ 62 - 1)

-- m_t.tv_sec, m_t.tv_nsec and m_negative.
pub record TimeInterval : Type 0 where
  pub sec : ℤ
  pub nsec : ℤ
  pub negative : Bool

abbrev pub infinity : TimeInterval
infinity = record { sec = time_max; nsec = pos 0; negative = false }

abbrev pub null : TimeInterval
null = record { sec = pos 0; nsec = pos 0; negative = false }

unfoldable pub is_normal : TimeInterval → Bool
is_normal t = leb_ℤ (pos 0) t.sec && leb_ℤ (pos 0) t.nsec && ltb_ℤ t.nsec billion

unfoldable pub is_null : TimeInterval → Bool
is_null t = eqb_ℤ t.sec (pos 0) && eqb_ℤ t.nsec (pos 0)

unfoldable pub is_infinite : TimeInterval → Bool
is_infinite t = ltb_ℤ half_time_max t.sec

unfoldable pub has_passed : TimeInterval → Bool
unfolding is_null
has_passed t = t.negative || is_null t

unfoldable pub is_abs_bigger_than : TimeInterval → TimeInterval → Bool
is_abs_bigger_than a t = ltb_ℤ t.sec a.sec || (eqb_ℤ a.sec t.sec && ltb_ℤ t.nsec a.nsec)

unfoldable pub is_bigger_than : TimeInterval → TimeInterval → Bool
unfolding is_abs_bigger_than
is_bigger_than a t =
    (not a.negative && t.negative)
    || (not a.negative && not t.negative && is_abs_bigger_than a t)
    || (a.negative && t.negative && is_abs_bigger_than t a)

-- == on bool
abbrev pub same : Bool → Bool → Bool
same true b = b
same false b = not b

-- operator==
unfoldable pub equals : TimeInterval → TimeInterval → Bool
equals a t = eqb_ℤ a.nsec t.nsec && eqb_ℤ a.sec t.sec && same a.negative t.negative

-- operator>=
unfoldable pub ge : TimeInterval → TimeInterval → Bool
unfolding equals is_bigger_than
ge a t = equals a t || is_bigger_than a t

-- operator<
unfoldable pub lt : TimeInterval → TimeInterval → Bool
unfolding ge
lt a t = not (ge a t)

-- operator<=
unfoldable pub le : TimeInterval → TimeInterval → Bool
unfolding equals is_bigger_than
le a t = equals a t || not (is_bigger_than a t)

-- The carry after an addition of two nanosecond fields.
unfoldable pub carry : TimeInterval → TimeInterval
carry m =
    if ltb_ℤ billion m.nsec then record m { sec = m.sec +ℤ pos 1; nsec = m.nsec -ℤ billion } else m

-- The borrow after a subtraction of two nanosecond fields.
unfoldable pub borrow : TimeInterval → TimeInterval
borrow m =
    if ltb_ℤ m.nsec (pos 0) then record m { sec = m.sec -ℤ pos 1; nsec = m.nsec +ℤ billion } else m

-- The check for overflow of `add`.
unfoldable pub saturates : TimeInterval → TimeInterval → Bool
unfolding is_infinite
saturates m t = is_infinite m || is_infinite t || leb_ℤ (time_max -ℤ m.sec -ℤ pos 1) t.sec

unfoldable pub add : TimeInterval → TimeInterval → TimeInterval
add m t =
    if same t.negative m.negative
    then (if saturates m t
        then record m { sec = time_max }
        else carry (record m { sec = m.sec +ℤ t.sec; nsec = m.nsec +ℤ t.nsec }))
    else borrow (
        if is_abs_bigger_than t m
        then (record { sec = t.sec -ℤ m.sec; nsec = t.nsec -ℤ m.nsec; negative = not m.negative })
        else record m { sec = m.sec -ℤ t.sec; nsec = m.nsec -ℤ t.nsec })

-- Unary operator-
unfoldable pub neg : TimeInterval → TimeInterval
neg t = record t { negative = not t.negative }

unfoldable pub sub : TimeInterval → TimeInterval → TimeInterval
sub m t = add m (neg t)

abbrev pub is_negative : TimeInterval → Bool
is_negative t = t.negative

abbrev pub is_positive : TimeInterval → Bool
is_positive t = not (is_negative t)

-- operator>
unfoldable pub gt : TimeInterval → TimeInterval → Bool
unfolding is_bigger_than
gt a t = is_bigger_than a t
