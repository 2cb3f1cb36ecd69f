-- ===== src/Poller/Remove.antt =====
-- include/libzth/poller.h: what remove() of a PollerServer takes off, and what it mixes up.
use zth.Base.{
  take, ℕ, zero, suc, ◌+◌, ◌-◌, ◌≡◌, ◌≢◌, ◌⊎◌, ◌≤◌, inl, inr, refl, sym, ap, subst, true, false,
  Bool-cases, Option, none, some, List, [], ◌∷◌, length, leb, ltb, ◌==◌, if◌then◌else◌, get_elem?,
  arith,
}
use zth.List.Refine.{test_no}
use zth.Worker.Schedule.{same_test}
use zth.Poller.{
  MetaItem, Server, back, all_but_back, fill_gap, is_same, last_index, remove_last, remove_at,
  remove, mirror, esrch,
}

abbrev pub one : MetaItem → MetaItem → ℕ
one x n = if is_same x n then 1 else 0

some-inj : {B : Type 0} {x y : B} → some x ≡ some y → x ≡ y
some-inj e = cc e

Option-cases : {B : Type 0} (o : Option B) → (o ≡ none) ⊎ ((b : B) × (o ≡ some b))
Option-cases none = inl refl
Option-cases (some b) = inr (b, refl)

-- How often a client has registered a pollable.
unfoldable pub count : MetaItem → List MetaItem → ℕ
count n [] = 0
count n (x ∷ xs) = one x n + count n xs

count-back :
    (n x : MetaItem) (xs : List MetaItem)
    → count n (all_but_back x xs) + one (back x xs) n ≡ count n (x ∷ xs)
unfolding count
count-back n x [] = omega arith
count-back n x (y ∷ ys) = omega (arith, count-back n y ys)

count-fill_gap :
    (n : MetaItem) (i : ℕ) (xs : List MetaItem) (x : MetaItem)
    → get_elem? xs i ≡ some x
    → count n (fill_gap i xs) + one x n ≡ count n xs
unfolding count fill_gap
count-fill_gap n i [] x e = cc e
count-fill_gap n zero (y ∷ []) x e = omega (arith, ap (λ (z : MetaItem). one z n) (some-inj e))
count-fill_gap n zero (y ∷ z ∷ zs) x e =
    omega (arith, count-back n z zs, ap (λ (w : MetaItem). one w n) (some-inj e))
count-fill_gap n (suc i) (y ∷ ys) x e = omega (arith, count-fill_gap n i ys x e)

-- The last one.
count-take :
    (n : MetaItem) (i : ℕ) (xs : List MetaItem) (x : MetaItem)
    → get_elem? xs i ≡ some x
    → length xs ≤ i + 1
    → count n (take i xs) + one x n ≡ count n xs
unfolding count
count-take n i [] x e l = cc e
count-take n zero (y ∷ []) x e l = omega (arith, ap (λ (z : MetaItem). one z n) (some-inj e))
count-take n zero (y ∷ z ∷ zs) x e l = absurd (omega (arith, l))
count-take n (suc i) (y ∷ ys) x e l = omega (arith, count-take n i ys x e (omega (arith, l)))

elem_lt : (i : ℕ) (xs : List MetaItem) (x : MetaItem) → get_elem? xs i ≡ some x → suc i ≤ length xs
elem_lt i [] x e = cc e
elem_lt zero (y ∷ ys) x e = omega arith
elem_lt (suc i) (y ∷ ys) x e = omega (arith, elem_lt i ys x e)

-- What the search finds.
last_index-some :
    (m : MetaItem) (xs : List MetaItem) (i : ℕ)
    → last_index m xs ≡ some i
    → (x : MetaItem) × (get_elem? xs i ≡ some x) × (is_same x m ≡ true)
unfolding last_index
last_index-some m [] i e = cc e
last_index-some m (x ∷ xs) i e = elim (Option-cases (last_index m xs)) [
  | inr (j, f) ↦
      let (y, g, h) = last_index-some m xs j f in
      subst (λ (k : ℕ). (z : MetaItem) × (get_elem? (x ∷ xs) k ≡ some z) × (is_same z m ≡ true))
        (some-inj (rw f at e)) (y, g, h)
  | inl f ↦ elim (Bool-cases (is_same x m)) [
    | inl s ↦
        subst (λ (k : ℕ). (z : MetaItem) × (get_elem? (x ∷ xs) k ≡ some z) × (is_same z m ≡ true))
          (some-inj (rw (f, s) at e)) (x, refl, s)
    | inr s ↦ absurd (cc (rw (f, s) at e))
  ]
]

last_index-none : (m : MetaItem) (xs : List MetaItem) → last_index m xs ≡ none → count m xs ≡ 0
unfolding last_index count
last_index-none m [] e = refl
last_index-none m (x ∷ xs) e = elim (Option-cases (last_index m xs)) [
  | inr (j, f) ↦ absurd (cc (rw f at e))
  | inl f ↦ elim (Bool-cases (is_same x m)) [
    | inl s ↦ absurd (cc (rw (f, s) at e))
    | inr s ↦ rw s (omega (arith, last_index-none m xs f))
  ]
]

last_miss :
    (m x : MetaItem) (xs : List MetaItem)
    → is_same x m ≡ false
    → last_index m xs ≡ none
    → last_index m (x ∷ xs) ≡ none
unfolding last_index
last_miss m x xs s f = rw (f, s) refl

last_hit :
    (m x : MetaItem) (xs : List MetaItem)
    → is_same x m ≡ true
    → last_index m xs ≡ none
    → last_index m (x ∷ xs) ≡ some 0
unfolding last_index
last_hit m x xs s f = rw (f, s) refl

same_one : (x m n : MetaItem) → is_same x m ≡ true → one x n ≡ one m n
same_one x m n e = ground (arith, e)

same_self : (m : MetaItem) → one m m ≡ 1
same_self m = ground arith

there : (m : MetaItem) (k : ℕ) → 1 ≤ k → 0 ≡ (if k == 0 then esrch else 0)
there m k l = ground (arith, l)

none_left : (k : ℕ) → leb k 1 ≡ true → k - 1 ≡ 0
none_left k e = ground (arith, e)

module _ {A : Type 0} where
  remove_last-metas : (s : Server A) → (remove_last 1 s).metas ≡ take (length s.metas - 1) s.metas
  unfolding remove_last
  remove_last-metas s = elim (Bool-cases (leb (length s.metas) 1)) [
    | inl e ↦ rw e (sym (ap (λ (k : ℕ). take k s.metas) (none_left (length s.metas) e)))
    | inr e ↦ rw e refl
  ]

  remove_at-count :
      (n : MetaItem) (i : ℕ) (s : Server A) (x : MetaItem)
      → get_elem? s.metas i ≡ some x
      → count n (remove_at i s).metas + one x n ≡ count n s.metas
  unfolding remove_at
  remove_at-count n i s x e = elim (Bool-cases (ltb i (length s.metas - 1))) [
    | inl l ↦ rw l (count-fill_gap n i s.metas x e)
    | inr l ↦
        let last : i ≡ length s.metas - 1 = ground (arith, l, elem_lt i s.metas x e) in
        rw (l, remove_last-metas s)
          (subst (λ (k : ℕ). count n (take k s.metas) + one x n ≡ count n s.metas) last
            (count-take n i s.metas x e (omega (arith, last))))
  ]

  remove-none :
      (m : MetaItem) (s : Server A) → last_index m s.metas ≡ none → remove m s ≡ (esrch, s)
  unfolding remove
  remove-none m s e =
      ap
        (λ (o : Option ℕ). elim o as (λ _. ℕ × Server A) [
          | none ↦ (esrch, s)
          | some i ↦ (0, remove_at i s)
        ])
        e

  remove-some :
      (m : MetaItem) (s : Server A) (i : ℕ)
      → last_index m s.metas ≡ some i
      → remove m s ≡ (0, remove_at i s)
  unfolding remove
  remove-some m s i e =
      ap
        (λ (o : Option ℕ). elim o as (λ _. ℕ × Server A) [
          | none ↦ (esrch, s)
          | some j ↦ (0, remove_at j s)
        ])
        e

  pub remove_takes :
      (m n : MetaItem) (s : Server A)
      → let (res, s') = remove m s in
        (res ≡ (if count m s.metas == 0 then esrch else 0))
        × (count n s'.metas + (if res == 0 then one m n else 0) ≡ count n s.metas)
  remove_takes m n s = elim (Option-cases (last_index m s.metas)) [
    | inl e ↦ rw (remove-none m s e, last_index-none m s.metas e) (refl, omega arith)
    | inr (i, e) ↦
        let (x, g, h) = last_index-some m s.metas i e in
        let some_there = remove_at-count m i s x g in
        let self = same_one x m m h in
        let taken = remove_at-count n i s x g in
        rw (remove-some m s i e) (
          there m (count m s.metas) (omega (arith, some_there, self, same_self m)),
          omega (arith, taken, same_one x m n h),
        )
  ]

module _ {A : Type 0} (init : ℕ → ℕ × A) (a b c : ℕ) (gone : List (ℕ × A)) where
  abbrev pub at : ℕ → MetaItem
  at p = record { pollable = p; client = 0 }

  -- The pollables a and b have an item, and c was added after that.
  abbrev pub late : Server A
  late = record {
    metas = at a ∷ at b ∷ at c ∷ [];
    items = (init a).1 ∷ (init b).1 ∷ [];
    gone = gone;
  }

  is_same-at : (p : ℕ) → is_same (at p) (at p) ≡ true
  is_same-at p = rw (same_test p) refl

  not_same_at : (p q : ℕ) → p ≢ q → is_same (at p) (at q) ≡ false
  not_same_at p q n = rw (test_no p q n) refl

  search : a ≢ b → a ≢ c → last_index (at a) (at a ∷ at b ∷ at c ∷ []) ≡ some 0
  search n o = last_hit (at a) (at a) (at b ∷ at c ∷ []) (is_same-at a) (
      last_miss (at a) (at b) (at c ∷ []) (not_same_at b a (λ q. n (sym q)))
        (last_miss (at a) (at c) [] (not_same_at c a (λ q. o (sym q))) (unfold last_index in refl)))

  mirrored :
      (init b).0 ≡ 0
      → let t = (mirror init (remove_at 0 late)).1 in
        (t.metas ≡ at c ∷ at b ∷ []) × (t.items ≡ (init b).1 ∷ (init b).1 ∷ [])
  unfolding mirror remove_at
  mirrored e = (refl, rw e refl)

  -- If the pollables a and b have their items and c was added after that, remove() of a and then
  -- mirror() leave c with the item of b, and b with a second one; so c is not polled. Here a is
  -- neither b nor c, and init() of b makes no error.
  pub remove_misplaces :
      a ≢ b
      → a ≢ c
      → (init b).0 ≡ 0
      → let t = (mirror init (remove (at a) late).1).1 in
        (t.metas ≡ at c ∷ at b ∷ []) × (t.items ≡ (init b).1 ∷ (init b).1 ∷ [])
  remove_misplaces n o e = rw (remove-some (at a) late 0 (search n o)) (mirrored e)
