-- ===== src/List/History.antt =====
-- include/libzth/list.h: a List through any series of the calls that change it, against a sequence.
use zth.Base.{◌≡◌, ◌≢◌, sym, subst, ℕ, Bool, List, [], ◌∷◌, ◌++◌}
use zth.List.{Chain, push_back, push_front, pop_back, pop_front, erase, rotate, insert_before}
use zth.List.Cycle.{Away}
use zth.List.Refine.{Holds, push_back_lem, push_front_lem, rotate_lem, insert_before_lem}
use zth.List.Remove.{pop_front_lem, pop_back_lem, erase_lem}

-- A call, with its arguments; the Bool says whether the pointers of a node that leaves are cleared.
pub data Call : Type 0 where
  at_back at_front turn : ℕ → Call
  before : ℕ → ℕ → Call
  off_back off_front : Bool → Call
  out : Bool → ℕ → Call

abbrev pub apply : Call → Chain → Chain
apply (at_back e) l = push_back e l
apply (at_front e) l = push_front e l
apply (turn e) l = rotate e l
apply (before y e) l = insert_before y e l
apply (off_back clears) l = pop_back clears l
apply (off_front clears) l = pop_front clears l
apply (out clears e) l = erase clears e l

-- What a call makes of a sequence, with what the zth_assert()s of the code ask of the caller.
abbrev pub Moves : Call → List ℕ → List ℕ → Type 0
Moves (at_back e) xs ys = (e ≢ 0) × Away e xs × (xs ++ e ∷ [] ≡ ys)
Moves (at_front e) xs ys = (e ≢ 0) × Away e xs × (e ∷ xs ≡ ys)
Moves (turn e) xs ys = (us vs : List ℕ) × (us ++ e ∷ vs ≡ xs) × (e ∷ vs ++ us ≡ ys)
Moves (before y e) xs ys =
    (x : ℕ) × (us vs : List ℕ) × (e ≢ 0)
    × Away e xs
    × (x ∷ us ++ y ∷ vs ≡ xs)
    × (x ∷ us ++ e ∷ y ∷ vs ≡ ys)
Moves (off_back clears) xs ys = (e : ℕ) × (ys ++ e ∷ [] ≡ xs)
Moves (off_front clears) xs ys = (e : ℕ) × (e ∷ ys ≡ xs)
Moves (out clears e) xs ys = (us vs : List ℕ) × (us ++ e ∷ vs ≡ xs) × (us ++ vs ≡ ys)

abbrev pub Runs : List Call → List ℕ → List ℕ → Type 0
Runs [] xs zs = xs ≡ zs
Runs (c ∷ cs) xs zs = (ys : List ℕ) × Moves c xs ys × Runs cs ys zs

abbrev pub run : List Call → Chain → Chain
run [] l = l
run (c ∷ cs) l = run cs (apply c l)

apply_lem :
    (c : Call) (l : Chain) (xs ys : List ℕ) → Moves c xs ys → Holds l xs → Holds (apply c l) ys
apply_lem (at_back e) l xs ys (n, a, q) h =
    subst (Holds (push_back e l)) q (push_back_lem l e xs n a h)
apply_lem (at_front e) l xs ys (n, a, q) h =
    subst (Holds (push_front e l)) q (push_front_lem l e xs n a h)
apply_lem (turn e) l xs ys (us, vs, p, q) h =
    subst (Holds (rotate e l)) q (rotate_lem l us e vs (subst (Holds l) (sym p) h))
apply_lem (before y e) l xs ys (x, us, vs, n, a, p, q) h =
    subst (Holds (insert_before y e l)) q
      (insert_before_lem l e x us y vs n (subst (Away e) (sym p) a) (subst (Holds l) (sym p) h))
apply_lem (off_back c) l xs ys (e, p) h = pop_back_lem c l ys e (subst (Holds l) (sym p) h)
apply_lem (off_front c) l xs ys (e, p) h = pop_front_lem c l e ys (subst (Holds l) (sym p) h)
apply_lem (out c e) l xs ys (us, vs, p, q) h =
    subst (Holds (erase c e l)) q (erase_lem c l us e vs (subst (Holds l) (sym p) h))

-- After any series of push_back(), push_front(), insert(), erase(), pop_front(), pop_back() and
-- rotate() on a List that holds a sequence, the List holds the sequence that these calls make of
-- it, if every node that is put in is not null and not in the List, a node before which one goes
-- in is in it and not first, and a node that is taken out or turned to is in it.
pub run_lem :
    (cs : List Call) (l : Chain) (xs zs : List ℕ) → Runs cs xs zs → Holds l xs → Holds (run cs l) zs
run_lem [] l xs zs p h = subst (Holds l) p h
run_lem (c ∷ cs) l xs zs (ys, m, r) h = run_lem cs (apply c l) ys zs r (apply_lem c l xs ys m h)
