-- ===== src/Perf/Ids.antt =====
-- src/perf.cpp: the identifiers of fibers.
use zth.Base.{
  ℕ, zero, suc, ◌+◌, ◌-◌, ◌*◌, ◌/◌, ◌%◌, ◌<◌, ◌≤◌, ◌^◌, ◌≡◌, refl, ap, subst, ◌∙◌, Bool-cases,
  ==_iff, inl, inr, List, [], ◌∷◌, Option, some, Option-cases, ◌==◌, length, All, ◌>>=◌, arith,
}
use mathlib.Core.Option.{some-injective, none-ne-some}
use zth.Perf.{Text, digits, Ids, find, vcd_id, vcd_id_release}

-- The number that a text stands for, read from the left after number n.
abbrev pub value_from : ℕ → Text → ℕ
value_from n [] = n
value_from n (c ∷ cs) = value_from (n * 93 + (c - 34)) cs

abbrev pub value : Text → ℕ
value s = value_from 0 s

-- 34 to 126, all that are printed but a space and the mark of a real variable.
abbrev pub IsIdChar : ℕ → Type 0
IsIdChar c = (34 ≤ c) × (c ≤ 126)

-- The text is that of the number, and fits.
abbrev pub IsIdOf : ℕ → Text → Type 0
IsIdOf fiber s = (value s ≡ fiber) × (0 < length s) × (length s ≤ 10) × All IsIdChar s

-- How many numbers that many characters make.
abbrev places : ℕ → ℕ
places zero = 1
places (suc n) = 93 * places n

value_digit : (id : ℕ) (s : Text) → value_from (id / 93) ((id % 93 + 34) ∷ s) ≡ value_from id s
value_digit id s = ap (λ n. value_from n s) (omega arith)

digit-IsIdChar : (id : ℕ) → IsIdChar (id % 93 + 34)
digit-IsIdChar id = (omega arith, omega arith)

-- What writing a number before s gives, in at most n characters.
abbrev Writes : ℕ → ℕ → Text → Option Text → Type 0
Writes n id s r =
    (t : Text) × (r ≡ some t)
    × (value t ≡ value_from id s)
    × (0 < length t)
    × (length t ≤ n + length s)
    × All IsIdChar t

digits_last :
    (n room id : ℕ) (s : Text)
    → id / 93 ≡ 0
    → All IsIdChar s
    → Writes (suc n) id s (digits (suc room) id s)
unfolding digits
digits_last n room id s h a = (
  (id % 93 + 34) ∷ s,
  ground (arith, h),
  subst (λ m. value_from m ((id % 93 + 34) ∷ s) ≡ value_from id s) h (value_digit id s),
  omega arith,
  omega arith,
  (digit-IsIdChar id, a),
)

digits_lem :
    (n room id : ℕ) (s : Text)
    → n ≤ room
    → id < places (suc n)
    → All IsIdChar s
    → Writes (suc n) id s (digits (suc room) id s)
unfolding digits
digits_lem zero room id s m h a = digits_last zero room id s (omega (arith, h)) a
digits_lem (suc n) zero id s m h a = absurd (omega (arith, m))
digits_lem (suc n) (suc room) id s m h a = elim (Bool-cases (id / 93 == 0)) [
  | inl e ↦ digits_last (suc n) (suc room) id s ((==_iff (id / 93) 0).0 e) a
  | inr e ↦
      let (t, q, v, p, l, b) =
        digits_lem n room (id / 93) ((id % 93 + 34) ∷ s) (omega (arith, m)) (omega (arith, h))
          (digit-IsIdChar id, a) in
      (t, ground (arith, e, q), v ∙ value_digit id s, p, omega (arith, l), b)
]

-- Every identifier in the map is that of its fiber.
abbrev pub Good : Ids → Type 0
Good [] = Unit
Good ((f, id) ∷ ids) = IsIdOf f id × Good ids

find-Good :
    (fiber : ℕ) (ids : Ids) (id : Text) → Good ids → find fiber ids ≡ some id → IsIdOf fiber id
find-Good fiber [] id g e = absurd (none-ne-some id e)
find-Good fiber ((f, s) ∷ ids) id g e = elim (Bool-cases (f == fiber)) [
  | inl q ↦
      subst (λ z. IsIdOf z id) ((==_iff f fiber).0 q)
        (subst (IsIdOf f) (some-injective s id (ground (arith, e, q))) g.0)
  | inr q ↦ find-Good fiber ids id g.1 (ground (arith, e, q))
]

pub vcd_id-Good :
    (fiber : ℕ) (ids : Ids)
    → fiber < 2 ^ 64
    → Good ids
    → (id : Text) × (next : Ids) × (vcd_id fiber ids ≡ some (id, next))
      × IsIdOf fiber id
      × Good next
unfolding vcd_id
vcd_id-Good fiber ids h g = elim (Option-cases (find fiber ids)) [
  | inr (id, e) ↦ (id, ids, ground (arith, e), find-Good fiber ids id g e, g)
  | inl e ↦
      let (t, q, v, p, l, b) = digits_lem 9 14 fiber [] (omega arith) (omega (arith, h)) tt in
      (t, (fiber, t) ∷ ids, ground (arith, e, q), (v, p, l, b), ((v, p, l, b), g))
]

pub vcd_id_release-Good : (fiber : ℕ) (ids : Ids) → Good ids → Good (vcd_id_release fiber ids)
unfolding vcd_id_release
vcd_id_release-Good fiber [] g = tt
vcd_id_release-Good fiber ((f, id) ∷ ids) g =
    let rest = vcd_id_release-Good fiber ids g.1 in ground (arith, g.0, rest)

pub data IdCall : Type 0 where
  uses : ℕ → IdCall
  releases : ℕ → IdCall

abbrev pub run : List IdCall → Ids → Option Ids
run [] ids = some ids
run (uses fiber ∷ cs) ids = vcd_id fiber ids >>= (λ r. run cs r.1)
run (releases fiber ∷ cs) ids = run cs (vcd_id_release fiber ids)

-- The numbers are of 64 bits.
abbrev pub AllFit : List IdCall → Type 0
AllFit [] = Unit
AllFit (uses fiber ∷ cs) = (fiber < 2 ^ 64) × AllFit cs
AllFit (releases fiber ∷ cs) = AllFit cs

run-Good :
    (cs : List IdCall) (ids : Ids)
    → AllFit cs
    → Good ids
    → (last : Ids) × (run cs ids ≡ some last) × Good last
run-Good [] ids f g = (ids, refl, g)
run-Good (uses fiber ∷ cs) ids f g =
    let (id, next, e, i, h) = vcd_id-Good fiber ids f.0 g in
    let (last, r, k) = run-Good cs next f.1 h in
    (last, ap (λ (o : Option (Text × Ids)). o >>= (λ r. run cs r.1)) e ∙ r, k)
run-Good (releases fiber ∷ cs) ids f g =
    run-Good cs (vcd_id_release fiber ids) f (vcd_id_release-Good fiber ids g)

-- After any series of vcdId() and vcdIdRelease() for numbers of 64 bits, vcdId() of such a
-- number stays within its buffer and gives 1 to 10 characters with codes from 34 to 126, which
-- read as digits of base 93 are that number.
pub vcd_id_lem :
    (cs : List IdCall) (fiber : ℕ)
    → AllFit cs
    → fiber < 2 ^ 64
    → (ids : Ids) × (id : Text) × (next : Ids) × (run cs [] ≡ some ids)
      × (vcd_id fiber ids ≡ some (id, next))
      × IsIdOf fiber id
vcd_id_lem cs fiber f h =
    let (ids, e, g) = run-Good cs [] f tt in
    let (id, next, q, i, h') = vcd_id-Good fiber ids h g in (ids, id, next, e, q, i)
