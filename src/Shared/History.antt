-- ===== src/Shared/History.antt =====
-- include/libzth/sync.h: SharedPointers through any series of calls.
use zth.Base.{
  ℕ, zero, suc, ◌<◌, ◌≡◌, ◌≢◌, ◌⊎◌, refl, sym, subst, Bool, true, false, Bool-cases, ==_iff, inl,
  inr, ◌||◌, ◌&&◌, List, [], ◌∷◌, ◌==◌, if◌then◌else◌, length, replicate, arith,
}
use zth.Shared.{Store, get, reset, assign, move}
use zth.Shared.Counts.{count, count_held, Counted, see, reset-Counted, move-Counted}

pub data Call : Type 0 where
  resets : ℕ → ℕ → Call
  assigns : ℕ → ℕ → Call
  moves : ℕ → ℕ → Call

abbrev pub apply : Call → Store → Store
apply (resets i x) s = reset i x s
apply (assigns i j) s = assign i j s
apply (moves i j) s = move i j s

abbrev pub run : List Call → Store → Store
run [] s = s
run (c ∷ cs) s = run cs (apply c s)

-- No pointer holds an object yet.
abbrev pub fresh : ℕ → Store
fresh n = record { held = replicate n 0; refs = λ x. 0; freed = [] }

-- The object was given to a pointer by its address.
abbrev pub given : List Call → ℕ → Bool
given [] y = false
given (resets i x ∷ cs) y = x == y || given cs y
given (assigns i j ∷ cs) y = given cs y
given (moves i j ∷ cs) y = given cs y

-- The pointers exist, and an address is not that of an object that was cleaned up.
abbrev pub Fits : Call → Store → Type 0
Fits (resets i x) s = (i < length s.held) × ((x ≡ 0) ⊎ (count x s.freed ≡ 0))
Fits (assigns i j) s = (i < length s.held) × (j < length s.held)
Fits (moves i j) s = (i < length s.held) × (j < length s.held)

abbrev pub AllFit : List Call → Store → Type 0
AllFit [] s = Unit
AllFit (c ∷ cs) s = Fits c s × AllFit cs (apply c s)

abbrev AllCounted : Store → (ℕ → Bool) → Type 0
AllCounted s seen = (y : ℕ) → y ≢ 0 → Counted s seen y

-- An object that some pointer holds was not cleaned up.
held_alive :
    (j : ℕ) (s : Store) (seen : ℕ → Bool)
    → j < length s.held
    → AllCounted s seen
    → (get s.held j ≡ 0) ⊎ ((count (get s.held j) s.freed ≡ 0) × (seen (get s.held j) ≡ true))
held_alive j s seen h c = elim (Bool-cases (get s.held j == 0)) [
  | inl e ↦ inl (ground (arith, e))
  | inr e ↦
      let p = c (get s.held j) (ground (arith, e)) in
      let q = count_held j s.held h in inr (ground (arith, p.0, p.1, q, e))
]

see_same : (x y : ℕ) (seen : ℕ → Bool) → y ≢ 0 → (x ≡ 0) ⊎ (seen x ≡ true) → see x seen y ≡ seen y
see_same x y seen n (inl e) = ground (arith, n, e)
see_same x y seen n (inr e) = elim (Bool-cases (x == y)) [
  | inl q ↦ let p = (==_iff x y).0 q in subst (λ z. see x seen z ≡ seen z) p (ground (arith, e))
  | inr q ↦ ground (arith, q)
]

abbrev seen_by : Call → (ℕ → Bool) → ℕ → Bool
seen_by (resets i x) seen = see x seen
seen_by (assigns i j) seen = seen
seen_by (moves i j) seen = seen

-- Counted, with what was seen as a value.
abbrev Holding : Store → Bool → ℕ → Type 0
Holding s b y = Counted s (λ z. b) y

apply-AllCounted :
    (c : Call) (s : Store) (seen : ℕ → Bool)
    → Fits c s
    → AllCounted s seen
    → AllCounted (apply c s) (seen_by c seen)
unfolding assign
apply-AllCounted (resets i x) s seen (h, f) a y n =
    reset-Counted i x y s seen h n f (a (get s.held i)) (a y n)
apply-AllCounted (assigns i j) s seen (h, k) a y n = elim (held_alive j s seen k a) [
  | inl e ↦
      subst (λ b. Holding (reset i (get s.held j) s) b y) (see_same (get s.held j) y seen n (inl e))
        (reset-Counted i (get s.held j) y s seen h n (inl e) (a (get s.held i)) (a y n))
  | inr e ↦
      subst (λ b. Holding (reset i (get s.held j) s) b y)
        (see_same (get s.held j) y seen n (inr e.1))
        (reset-Counted i (get s.held j) y s seen h n (inr e.0) (a (get s.held i)) (a y n))
]
apply-AllCounted (moves i j) s seen (h, k) a y n =
    move-Counted i j y s seen h k n (a (get s.held i)) (a y n)

abbrev seen_after : List Call → (ℕ → Bool) → ℕ → Bool
seen_after [] seen = seen
seen_after (c ∷ cs) seen = seen_after cs (seen_by c seen)

run-AllCounted :
    (cs : List Call) (s : Store) (seen : ℕ → Bool)
    → AllFit cs s
    → AllCounted s seen
    → AllCounted (run cs s) (seen_after cs seen)
run-AllCounted [] s seen f a = a
run-AllCounted (c ∷ cs) s seen f a =
    run-AllCounted cs (apply c s) (seen_by c seen) f.1 (apply-AllCounted c s seen f.0 a)

given_lem :
    (cs : List Call) (seen : ℕ → Bool) (y : ℕ) → seen_after cs seen y ≡ (given cs y || seen y)
given_lem [] seen y = refl
given_lem (resets i x ∷ cs) seen y = ground (arith, given_lem cs (see x seen) y)
given_lem (assigns i j ∷ cs) seen y = given_lem cs seen y
given_lem (moves i j ∷ cs) seen y = given_lem cs seen y

count-replicate : (n y : ℕ) → y ≢ 0 → count y (replicate n 0) ≡ 0
unfolding count
count-replicate zero y h = refl
count-replicate (suc n) y h = ground (arith, h, count-replicate n y h)

fresh-AllCounted : (n : ℕ) → AllCounted (fresh n) (λ y. false)
unfolding count
fresh-AllCounted n y h = (sym (count-replicate n y h), refl)

-- After any series of reset(), assignments and moves of SharedPointers that exist, with
-- addresses of objects that were not cleaned up, the count of every object is the number of
-- pointers that hold it. It was cleaned up once if it was given to a pointer by its address and
-- no pointer holds it, and otherwise not.
pub run-Counted :
    (n : ℕ) (cs : List Call) (y : ℕ)
    → AllFit cs (fresh n)
    → y ≢ 0
    → ((run cs (fresh n)).refs y ≡ count y (run cs (fresh n)).held)
      × (count y (run cs (fresh n)).freed
          ≡ (if given cs y && (count y (run cs (fresh n)).held == 0) then 1 else 0))
run-Counted n cs y f h =
    let a = run-AllCounted cs (fresh n) (λ y. false) f (fresh-AllCounted n) y h in
    let g = given_lem cs (λ y. false) y in (a.0, ground (arith, a.0, a.1, g))
