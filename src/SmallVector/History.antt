-- ===== src/SmallVector/History.antt =====
-- include/libzth/util.h: a small_vector through any series of calls, against a sequence.
use zth.Base.{
  ℕ, ◌<◌, ◌≡◌, refl, ◌∙◌, ap, inl, Option, some, List, [], ◌∷◌, ◌++◌, length, get_elem?,
  all_but_last, ◌>>=◌, arith,
}
use zth.SmallVector.{
  SmallVector, fresh, size, at, reserve, push_back, pop_back, resized, resize, clear,
}
use zth.SmallVector.Storage.{Holds}
use zth.SmallVector.Refine.{Gives, size-Holds, at-Holds, push_back-Holds, reserve-Holds}
use zth.SmallVector.Resize.{pop_back-Holds, resize-Holds, clear-Holds}

pub data Call (A : Type 0) : Type 0 where
  pushes : A → Call A
  pops : Call A
  reserves : ℕ → Call A
  resizes : ℕ → A → Call A
  clears : A → Call A

module _ {A : Type 0} where
  -- The call on a sequence.
  abbrev pub make : Call A → List A → List A
  make (pushes a) xs = xs ++ a ∷ []
  make pops xs = all_but_last xs
  make (reserves n) xs = xs
  make (resizes n x) xs = resized n x xs
  make (clears x) xs = []

  abbrev pub make_all : List (Call A) → List A → List A
  make_all [] xs = xs
  make_all (c ∷ cs) xs = make_all cs (make c xs)

  -- What is popped is not empty.
  abbrev pub Fits : Call A → List A → Type 0
  Fits pops xs = 0 < length xs
  Fits c xs = Unit

  abbrev pub AllFit : List (Call A) → List A → Type 0
  AllFit [] xs = Unit
  AllFit (c ∷ cs) xs = Fits c xs × AllFit cs (make c xs)

module _ {A : Type 0} (prealloc : ℕ) where
  abbrev pub apply : Call A → SmallVector A → Option (SmallVector A)
  apply (pushes a) s = push_back prealloc a s
  apply pops s = pop_back prealloc s
  apply (reserves n) s = reserve prealloc n s
  apply (resizes n x) s = resize prealloc n x s
  apply (clears x) s = clear prealloc x s

  abbrev pub run : List (Call A) → SmallVector A → Option (SmallVector A)
  run [] s = some s
  run (c ∷ cs) s = apply c s >>= run cs

  apply-Holds :
      (c : Call A) (s : SmallVector A) (xs : List A)
      → Fits c xs
      → Holds prealloc s xs
      → Gives prealloc (apply c s) (make c xs)
  apply-Holds (pushes a) s xs f h = push_back-Holds prealloc a s xs h
  apply-Holds pops s xs f h = pop_back-Holds prealloc s xs f h
  apply-Holds (reserves n) s xs f h = reserve-Holds prealloc n s xs h
  apply-Holds (resizes n x) s xs f h = resize-Holds prealloc n x s xs h
  apply-Holds (clears x) s xs f h = clear-Holds prealloc x s xs h

  run-Holds :
      (cs : List (Call A)) (s : SmallVector A) (xs : List A)
      → AllFit cs xs
      → Holds prealloc s xs
      → Gives prealloc (run cs s) (make_all cs xs)
  run-Holds [] s xs f h = (s, refl, h)
  run-Holds (c ∷ cs) s xs f h =
      let (t, e, g) = apply-Holds c s xs f.0 h in
      let (u, q, k) = run-Holds cs t (make c xs) f.1 g in
      (u, ap (λ (r : Option (SmallVector A)). r >>= run cs) e ∙ q, k)

  -- Any series of push_back(), pop_back(), reserve(), resize() and clear() on an empty
  -- small_vector, in which nothing is popped that is not there, ends without a fault, and then
  -- size() and every element are those of the sequence that the series makes.
  pub run_from_fresh :
      (cs : List (Call A))
      → AllFit cs []
      → (s : SmallVector A) × (run cs fresh ≡ some s)
        × (size prealloc s ≡ some (length (make_all cs [])))
        × ((i : ℕ) → at prealloc i s ≡ get_elem? (make_all cs []) i)
  run_from_fresh cs f =
      let (s, e, h) = run-Holds cs fresh [] f (inl (omega arith, refl)) in
      (
        s,
        e,
        size-Holds prealloc s (make_all cs []) h,
        λ i. at-Holds prealloc i s (make_all cs []) h,
      )
