-- ===== src/Time/Stamp.antt =====
-- include/libzth/time.h: class Timestamp. The clock is read by the callers, which take the time as
-- an argument.
use zth.Base.{Bool, false, not, ◌&&◌, ◌||◌, if◌then◌else◌}
use zth.Base.Int.{ℤ, pos, ltb_ℤ, eqb_ℤ, ◌+ℤ◌, ◌-ℤ◌}
use zth.Time.Interval.{TimeInterval, sub, neg, billion}
use zth.Time.Interval

pub record Timestamp : Type 0 where
  pub sec : ℤ
  pub nsec : ℤ

abbrev pub null : Timestamp
null = record { sec = pos 0; nsec = pos 0 }

unfoldable pub is_null : Timestamp → Bool
is_null t = eqb_ℤ t.sec (pos 0) && eqb_ℤ t.nsec (pos 0)

unfoldable pub is_before : Timestamp → Timestamp → Bool
is_before a t = ltb_ℤ a.sec t.sec || (eqb_ℤ a.sec t.sec && ltb_ℤ a.nsec t.nsec)

-- operator==
unfoldable pub equals : Timestamp → Timestamp → Bool
equals a t = eqb_ℤ a.nsec t.nsec && eqb_ℤ a.sec t.sec

-- operator<=
unfoldable pub le : Timestamp → Timestamp → Bool
unfolding equals is_before
le a t = equals a t || is_before a t

-- The interval from a null timestamp, TimeInterval(tv_sec, tv_nsec).
abbrev pub interval : Timestamp → TimeInterval
interval t = record { sec = t.sec; nsec = t.nsec; negative = false }

unfoldable pub time_to : Timestamp → Timestamp → TimeInterval
time_to a t = sub (interval t) (interval a)

-- operator-(Timestamp const&)
unfoldable pub diff : Timestamp → Timestamp → TimeInterval
diff a b = time_to b a

unfoldable pub add : Timestamp → TimeInterval → Timestamp
add a dt = let t = Interval.add (interval a) dt in record { sec = t.sec; nsec = t.nsec }

unfoldable pub is_after : Timestamp → Timestamp → Bool
unfolding is_before
is_after a t = is_before t a

-- operator!=
unfoldable pub differs : Timestamp → Timestamp → Bool
unfolding equals
differs a t = not (equals a t)

-- operator>
unfoldable pub gt : Timestamp → Timestamp → Bool
unfolding is_before
gt a t = is_before t a

-- operator>=
unfoldable pub ge : Timestamp → Timestamp → Bool
unfolding equals is_before
ge a t = equals a t || is_before t a

-- passed(), at the time now.
unfoldable pub passed : Timestamp → Timestamp → TimeInterval
passed a now =
    let s = now.sec -ℤ a.sec in
    let n = now.nsec -ℤ a.nsec in
    if ltb_ℤ n (pos 0)
    then (record { sec = s -ℤ pos 1; nsec = n +ℤ billion; negative = false })
    else (record { sec = s; nsec = n; negative = false })

-- operator-(TimeInterval const&)
unfoldable pub subtract : Timestamp → TimeInterval → Timestamp
unfolding add
subtract a dt = add a (neg dt)
