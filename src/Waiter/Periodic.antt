-- ===== src/Waiter/Periodic.antt =====
-- src/waiter.cpp and include/libzth/waiter.h: PeriodicWakeUp, which naps to one deadline after another.
use zth.Base.{
  ℕ, zero, suc, ◌≡◌, ◌⊎◌, inl, inr, refl, ap, ◌∙◌, Bool, true, false, List, [], ◌∷◌, if◌then◌else◌,
  Bool-cases, length, arith,
}
use zth.Time.Interval.{TimeInterval}
use zth.Time.Stamp.{Timestamp}
use zth.Time.Stamp

-- m_interval and m_t
pub record PeriodicWakeUp : Type 0 where
  pub interval : TimeInterval
  pub t : Timestamp

-- What nap() calls.
pub data Does : Type 0 where
  naps_until : Timestamp → Does
  yields : Does

-- nap(reference, now)
unfoldable pub nap : Timestamp → Timestamp → PeriodicWakeUp → Bool × Does × PeriodicWakeUp
nap reference now p =
    let t = Stamp.add reference p.interval in
    if Stamp.gt t now
    then (true, naps_until t, record p { t = t })
    else if Stamp.gt (Stamp.add t p.interval) now
    then (false, yields, record p { t = t })
    else (false, yields, record p { t = now })

-- nap() at each of these times.
abbrev pub naps : List Timestamp → PeriodicWakeUp → PeriodicWakeUp
naps [] p = p
naps (now ∷ nows) p = naps nows (nap p.t now p).2

-- The deadline that many intervals after a time.
abbrev pub after : ℕ → TimeInterval → Timestamp → Timestamp
after zero interval t = t
after (suc n) interval t = after n interval (Stamp.add t interval)

-- Each nap() comes before its deadline, or before the next one.
abbrev pub InTime : List Timestamp → TimeInterval → Timestamp → Type 0
InTime [] interval t = Unit
InTime (now ∷ nows) interval t =
    let next = Stamp.add t interval in
    ((Stamp.gt next now ≡ true) ⊎ (Stamp.gt (Stamp.add next interval) now ≡ true))
    × InTime nows interval next

nap_in_time :
    (now : Timestamp) (p : PeriodicWakeUp)
    → (Stamp.gt (Stamp.add p.t p.interval) now ≡ true)
      ⊎ (Stamp.gt (Stamp.add (Stamp.add p.t p.interval) p.interval) now ≡ true)
    → (nap p.t now p).2 ≡ record p { t = Stamp.add p.t p.interval }
unfolding nap
nap_in_time now p (inl e) = rw e refl
nap_in_time now p (inr e) = elim (Bool-cases (Stamp.gt (Stamp.add p.t p.interval) now)) [
  | inl f ↦ rw f refl
  | inr f ↦ rw (f, e) refl
]

pub naps_keep_pace :
    (nows : List Timestamp) (p : PeriodicWakeUp)
    → InTime nows p.interval p.t
    → naps nows p ≡ record p { t = after (length nows) p.interval p.t }
naps_keep_pace [] p h = refl
naps_keep_pace (now ∷ nows) p (h, hs) =
    ap (naps nows) (nap_in_time now p h)
    ∙ naps_keep_pace nows (record p { t = Stamp.add p.t p.interval }) hs

gt_irrefl : (t : Timestamp) → Stamp.gt t t ≡ false
unfolding Stamp.gt Stamp.is_before
gt_irrefl t = ground arith

-- nap(reference, now) returns true exactly if its deadline is after now, and only then it
-- sleeps, until that deadline; otherwise it yields, and one interval after its deadline is after
-- now, if one interval after now is.
pub nap_catches_up :
    (reference now : Timestamp) (p : PeriodicWakeUp)
    → Stamp.gt (Stamp.add now p.interval) now ≡ true
    → let (slept, does, p') = nap reference now p in
      (Stamp.gt p'.t now ≡ slept)
      × ((does ≡ (if slept then naps_until p'.t else yields))
          × ((slept ≡ true) ⊎ (Stamp.gt (Stamp.add p'.t p.interval) now ≡ true)))
unfolding nap
nap_catches_up reference now p h =
    elim (Bool-cases (Stamp.gt (Stamp.add reference p.interval) now)) [
      | inl e ↦ rw e (e, (refl, inl refl))
      | inr e ↦
          elim (Bool-cases (Stamp.gt (Stamp.add (Stamp.add reference p.interval) p.interval) now)) [
            | inl f ↦ rw (e, f) (e, (refl, inr f))
            | inr f ↦ rw (e, f) (gt_irrefl now, (refl, inr h))
          ]
    ]
