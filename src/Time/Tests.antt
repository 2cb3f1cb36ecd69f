-- ===== src/Time/Tests.antt =====
-- Runs of the time arithmetic, and the theorems about it at concrete intervals.
use zth.Base.{◌≡◌, ◌↔◌, ◌+◌, refl, true, false, arith}
use zth.Base.Int.{pos, pos_part, ◌+ℤ◌, ◌-ℤ◌}
use zth.Time.Interval.{
  TimeInterval, add, sub, saturates, neg, carry, borrow, is_abs_bigger_than, is_infinite, same,
}
use zth.Time.Stamp.{Timestamp, diff}
use zth.Time.Stamp
use zth.Time.Arith.{ns, ns-add}
use zth.Time.Normal.{IsNormal, add-IsNormal_iff}
use zth.Time.Order.{add-diff}

-- 1.7 s and -0.9 s
abbrev long : TimeInterval
long = record { sec = pos 1; nsec = pos 700_000_000; negative = false }

abbrev short : TimeInterval
short = record { sec = pos 0; nsec = pos 900_000_000; negative = true }

abbrev half : TimeInterval
half = record { sec = pos 0; nsec = pos 500_000_000; negative = false }

-- half a second and half a second
half_twice : add half half ≡ record { sec = pos 0; nsec = pos 1_000_000_000; negative = false }
unfolding add ◌+ℤ◌ ◌-ℤ◌ saturates carry
half_twice = refl

abbrev start : Timestamp
start = record { sec = pos 10; nsec = pos 800_000_000 }

abbrev later : Timestamp
later = record { sec = pos 12; nsec = pos 100_000_000 }

diff_runs : diff later start ≡ record { sec = pos 1; nsec = pos 300_000_000; negative = false }
unfolding diff ◌+ℤ◌ ◌-ℤ◌ Stamp.time_to sub add neg borrow is_abs_bigger_than
diff_runs = refl

ns-add_example : ns (add long short) ≡ ns long +ℤ ns short
ns-add_example = ns-add long short refl

add-IsNormal_iff_example : IsNormal (add half half) ↔ (
    ¬ (
      (same half.negative half.negative ≡ true)
      × (pos_part half.nsec + pos_part half.nsec ≡ 1_000_000_000)))
unfolding saturates ◌-ℤ◌
add-IsNormal_iff_example = add-IsNormal_iff half half (omega arith) (omega arith) refl

add-diff_example : Stamp.add start (diff later start) ≡ later
unfolding Stamp.is_before is_infinite
add-diff_example = add-diff start later (omega arith) (omega arith) refl refl (λ e. omega arith)
