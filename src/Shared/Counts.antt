-- ===== src/Shared/Counts.antt =====
-- include/libzth/sync.h: the counts of the objects that SharedPointers hold.
use zth.Base.{
  ℕ, zero, suc, ◌+◌, ◌<◌, ◌≡◌, ◌≢◌, ◌⊎◌, refl, ap, ◌∙◌, Bool, inl, ◌||◌, List, [], ◌∷◌, ◌==◌,
  if◌then◌else◌, length, arith,
}
use zth.Shared.{Store, get, set, used, unused, reset, move}

abbrev pub one : ℕ → ℕ → ℕ
one x y = if x == y then 1 else 0

unfoldable pub count : ℕ → List ℕ → ℕ
count x [] = 0
count x (y ∷ ys) = one y x + count x ys

count-set :
    (x y i : ℕ) (xs : List ℕ)
    → i < length xs
    → count x (set xs i y) + one (get xs i) x ≡ count x xs + one y x
unfolding count
count-set x y i [] h = absurd (omega (arith, h))
count-set x y zero (z ∷ zs) h = omega arith
count-set x y (suc i) (z ∷ zs) h = omega (arith, count-set x y i zs (omega (arith, h)))

length-set : (i y : ℕ) (xs : List ℕ) → length (set xs i y) ≡ length xs
length-set i y [] = refl
length-set zero y (x ∷ xs) = refl
length-set (suc i) y (x ∷ xs) = omega (arith, length-set i y xs)

pub count_held : (i : ℕ) (xs : List ℕ) → i < length xs → 0 < count (get xs i) xs
unfolding count
count_held i [] h = absurd (omega (arith, h))
count_held zero (x ∷ xs) h = ground arith
count_held (suc i) (x ∷ xs) h = omega (arith, count_held i xs (omega (arith, h)))

-- The count of an object is that of the pointers to it. It was cleaned up once if it was held, and
-- no pointer holds it now, and else not.
abbrev pub Counted : Store → (ℕ → Bool) → ℕ → Type 0
Counted s seen x =
    (s.refs x ≡ count x s.held)
    × (count x s.freed + (if s.refs x == 0 then 0 else 1) ≡ (if seen x then 1 else 0))

abbrev pub see : ℕ → (ℕ → Bool) → ℕ → Bool
see x seen y = x == y || seen y

pub reset-Counted :
    (i x y : ℕ) (s : Store) (seen : ℕ → Bool)
    → i < length s.held
    → y ≢ 0
    → (x ≡ 0) ⊎ (count x s.freed ≡ 0)
    → (get s.held i ≢ 0 → Counted s seen (get s.held i))
    → Counted s seen y
    → Counted (reset i x s) (see x seen) y
unfolding reset count
reset-Counted i x y s seen h n f o c =
    let p = count-set y x i s.held h in
    let q = count_held i s.held h in ground (arith, p, q, f, o, c.0, c.1)

get-set : (i j : ℕ) (xs : List ℕ) → get xs i ≡ 0 → get (set xs j 0) i ≡ 0
get-set i j [] h = h
get-set zero zero (x ∷ xs) h = refl
get-set zero (suc j) (x ∷ xs) h = h
get-set (suc i) zero (x ∷ xs) h = h
get-set (suc i) (suc j) (x ∷ xs) h = get-set i j xs h

get-set_same : (i y : ℕ) (xs : List ℕ) → i < length xs → get (set xs i y) i ≡ y
get-set_same i y [] h = absurd (omega (arith, h))
get-set_same zero y (x ∷ xs) h = refl
get-set_same (suc i) y (x ∷ xs) h = get-set_same i y xs (omega (arith, h))

-- What pointer j holds goes to pointer i, which holds 0.
count-swap :
    (i j y : ℕ) (xs : List ℕ)
    → i < length xs
    → j < length xs
    → get xs i ≡ 0
    → y ≢ 0
    → count y (set (set xs j 0) i (get xs j)) ≡ count y xs
count-swap i j y xs h k e n =
    let p = count-set y 0 j xs k in
    let q = count-set y (get xs j) i (set xs j 0) (omega (arith, h, length-set j 0 xs)) in
    let r = get-set i j xs e in ground (arith, p, q, r, n)

held-reset : (i x : ℕ) (s : Store) → (reset i x s).held ≡ set s.held i x
unfolding reset used unused
held-reset i x s = ground arith

pub length-reset : (i x : ℕ) (s : Store) → length (reset i x s).held ≡ length s.held
length-reset i x s = ap length (held-reset i x s) ∙ length-set i x s.held

pub length-move : (i j : ℕ) (s : Store) → length (move i j s).held ≡ length s.held
unfolding move
length-move i j s =
    let t = reset i 0 s in
    length-set i (get t.held j) (set t.held j 0) ∙ length-set j 0 t.held ∙ length-reset i 0 s

get-reset : (i x : ℕ) (s : Store) → i < length s.held → get (reset i x s).held i ≡ x
get-reset i x s h = ap (λ xs. get xs i) (held-reset i x s) ∙ get-set_same i x s.held h

pub move-Counted :
    (i j y : ℕ) (s : Store) (seen : ℕ → Bool)
    → i < length s.held
    → j < length s.held
    → y ≢ 0
    → (get s.held i ≢ 0 → Counted s seen (get s.held i))
    → Counted s seen y
    → Counted (move i j s) seen y
unfolding move
move-Counted i j y s seen h k n o c =
    let t = reset i 0 s in
    let r = reset-Counted i 0 y s seen h n (inl refl) o c in
    let l = length-reset i 0 s in
    let e =
      count-swap i j y t.held (omega (arith, h, l)) (omega (arith, k, l)) (get-reset i 0 s h) n in
    ground (arith, r, e, n)
