-- ===== src/Waiter/Poll.antt =====
-- include/libzth/waiter.h: poll() of TimedWaitable and PolledWaiting, and the order of timeouts.
use zth.Base.{
  ℕ, ◌≡◌, ◌≢◌, ◌⊎◌, inl, inr, refl, sym, subst, Bool, true, false, if◌then◌else◌, ◌==◌, Bool-cases,
  arith,
}
use zth.Time.Interval.{TimeInterval}
use zth.Time.Stamp.{Timestamp}
use zth.Time.Stamp
use zth.List.Refine.{test_no}
use zth.Worker.Schedule.{same_test}
use zth.SortedList.Order.{IsOrder}
use zth.Waiter.{Poll, sooner}

-- What a waitable is; a polled one with what its function says now, and its interval().
pub data Kind : Type 0 where
  timed : Kind
  polled : Bool → TimeInterval → Kind

-- setTimeout()
abbrev pub set_timeout : ℕ → Timestamp → (ℕ → Timestamp) → ℕ → Timestamp
set_timeout x t timeout y = if x == y then t else timeout y

abbrev pub next_poll : Timestamp → Timestamp → TimeInterval → Timestamp
next_poll now timeout interval =
    let next = Stamp.add timeout interval in
    if Stamp.is_before next now then Stamp.add now interval else next

-- TimedWaitable::poll() and PolledWaiting::poll()
unfoldable pub poll_as : Kind → Poll
poll_as timed x now timeout = (Stamp.le (timeout x) now, timeout)
poll_as (polled test interval) x now timeout =
    if test
    then (true, timeout)
    else (false, set_timeout x (next_poll now (timeout x) interval) timeout)

unfoldable pub poll : (ℕ → Kind) → Poll
unfolding poll_as
poll kind x = poll_as (kind x) x

pub is_before-asym : (a b : Timestamp) → Stamp.is_before a b ≡ true → Stamp.is_before b a ≡ false
unfolding Stamp.is_before
is_before-asym a b h = ground (arith, h)

pub is_before-between :
    (a b c : Timestamp)
    → Stamp.is_before a c ≡ true
    → (Stamp.is_before a b ≡ true) ⊎ (Stamp.is_before b c ≡ true)
unfolding Stamp.is_before
is_before-between a b c h = ground (arith, h)

pub sooner-IsOrder : (timeout : ℕ → Timestamp) → IsOrder (sooner timeout)
sooner-IsOrder timeout = record {
  asym = λ x y. is_before-asym (timeout x) (timeout y);
  between = λ x y z. is_before-between (timeout x) (timeout y) (timeout z);
}

-- What the loop relies on: poll() of a waitable sets no timeout but its own, and unless the wait is
-- over, none that has come.
pub record IsFair (poll : Poll) (now : Timestamp) : Type 0 where
  pub own : (x : ℕ) (timeout : ℕ → Timestamp) (y : ℕ) → y ≢ x → (poll x now timeout).1 y ≡ timeout y
  pub later :
      (x : ℕ) (timeout : ℕ → Timestamp)
      → (poll x now timeout).0 ≡ false
      → Stamp.is_before ((poll x now timeout).1 x) now ≡ false

set_timeout_other :
    (x : ℕ) (t : Timestamp) (timeout : ℕ → Timestamp) (y : ℕ)
    → y ≢ x
    → set_timeout x t timeout y ≡ timeout y
set_timeout_other x t timeout y n = rw (test_no x y (λ e. n (sym e))) refl

set_timeout_same : (x : ℕ) (t : Timestamp) (timeout : ℕ → Timestamp) → set_timeout x t timeout x ≡ t
set_timeout_same x t timeout = rw (same_test x) refl

next_poll_later :
    (now t : Timestamp) (interval : TimeInterval)
    → Stamp.is_before (Stamp.add now interval) now ≡ false
    → Stamp.is_before (next_poll now t interval) now ≡ false
next_poll_later now t interval h = elim (Bool-cases (Stamp.is_before (Stamp.add t interval) now)) [
  | inl e ↦ rw e h
  | inr e ↦ rw e e
]

-- The interval of a polled waitable does not lead back before now.
abbrev pub StepsOn : Kind → Timestamp → Type 0
StepsOn timed now = Unit
StepsOn (polled test interval) now = Stamp.is_before (Stamp.add now interval) now ≡ false

own_as :
    (kind : Kind) (now : Timestamp) (x : ℕ) (timeout : ℕ → Timestamp) (y : ℕ)
    → y ≢ x
    → (poll_as kind x now timeout).1 y ≡ timeout y
unfolding poll_as
own_as timed now x timeout y n = refl
own_as (polled true interval) now x timeout y n = refl
own_as (polled false interval) now x timeout y n =
    set_timeout_other x (next_poll now (timeout x) interval) timeout y n

later_as :
    (kind : Kind) (now : Timestamp) (x : ℕ) (timeout : ℕ → Timestamp)
    → StepsOn kind now
    → (poll_as kind x now timeout).0 ≡ false
    → Stamp.is_before ((poll_as kind x now timeout).1 x) now ≡ false
unfolding poll_as Stamp.le
later_as timed now x timeout s e = ground (arith, e)
later_as (polled true interval) now x timeout s e = absurd (cc)
later_as (polled false interval) now x timeout s e =
    subst (λ (t : Timestamp). Stamp.is_before t now ≡ false)
      (sym (set_timeout_same x (next_poll now (timeout x) interval) timeout))
      (next_poll_later now (timeout x) interval s)

-- poll() of timed and polled waitables.
pub poll-IsFair :
    (kind : ℕ → Kind) (now : Timestamp) → ((x : ℕ) → StepsOn (kind x) now) → IsFair (poll kind) now
unfolding poll
poll-IsFair kind now s = record {
  own = λ x. own_as (kind x) now x;
  later = λ x timeout. later_as (kind x) now x timeout (s x);
}
