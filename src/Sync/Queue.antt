-- ===== src/Sync/Queue.antt =====
-- include/libzth/sync.h: class SynchronizerBase, its queues of blocked fibers and who is woken.
-- The queue is a List of the fibers; List.antt is about its representation.
use zth.Base.{
  ℕ, ◌+◌, ◌≡◌, refl, Bool, true, false, List, [], ◌∷◌, ◌++◌, arith, ltb, ◌==◌, if◌then◌else◌,
}

-- The queue that is left, and the fibers that are woken.
pub record Woken : Type 0 where
  pub queue : List ℕ
  pub fibers : List ℕ

-- enqueue(), as block() and block_() call it for the current fiber.
abbrev pub enqueue : ℕ → List ℕ → List ℕ
enqueue f q = q ++ f ∷ []

unfoldable pub contains : ℕ → List ℕ → Bool
contains f [] = false
contains f (x ∷ xs) = if x == f then true else contains f xs

unfoldable pub erase : ℕ → List ℕ → List ℕ
erase f [] = []
erase f (x ∷ xs) = if x == f then xs else x ∷ erase f xs

-- unblock(): whether the fiber was in the queue, and the outcome.
unfoldable pub unblock : ℕ → List ℕ → Bool × Woken
unfolding contains erase
unblock f q =
    if contains f q
    then (true, record { queue = erase f q; fibers = f ∷ [] })
    else (false, record { queue = q; fibers = [] })

-- unblockFirst(); it returns null exactly if it wakes no fiber.
unfoldable pub unblock_first : List ℕ → Woken
unblock_first [] = record { queue = []; fibers = [] }
unblock_first (x ∷ xs) = record { queue = xs; fibers = x ∷ [] }

-- The loop of unblockAll(); it returns true exactly if it wakes a fiber.
unfoldable pub unblock_all : List ℕ → Woken
unblock_all [] = record { queue = []; fibers = [] }
unblock_all (x ∷ xs) = record { queue = []; fibers = x ∷ (unblock_all xs).fibers }

-- How often a fiber stands in a queue.
unfoldable pub count : ℕ → List ℕ → ℕ
count f [] = 0
count f (x ∷ xs) = (if x == f then 1 else 0) + count f xs

pub count-enqueue :
    (f g : ℕ) (q : List ℕ) → count f (enqueue g q) ≡ count f q + (if g == f then 1 else 0)
unfolding count
count-enqueue f g [] = omega arith
count-enqueue f g (x ∷ xs) = omega (arith, count-enqueue f g xs)

pub unblock_all_lem : (q : List ℕ) → unblock_all q ≡ record { queue = []; fibers = q }
unfolding unblock_all
unblock_all_lem [] = refl
unblock_all_lem (x ∷ xs) = rw (unblock_all_lem xs)

-- Waking the first moves it from the queue to the woken.
pub count-unblock_first :
    (f : ℕ) (q : List ℕ)
    → count f (unblock_first q).queue + count f (unblock_first q).fibers ≡ count f q
unfolding count unblock_first
count-unblock_first f [] = omega arith
count-unblock_first f (x ∷ xs) = omega arith

pub count-contains : (f : ℕ) (q : List ℕ) → contains f q ≡ false → count f q ≡ 0
unfolding count contains
count-contains f [] h = refl
count-contains f (x ∷ xs) h = ground (arith, count-contains f xs)

pub count-erase :
    (f g : ℕ) (q : List ℕ)
    → contains f q ≡ true
    → count g (erase f q) + (if f == g then 1 else 0) ≡ count g q
unfolding count contains erase
count-erase f g [] h = cc
count-erase f g (x ∷ xs) h = ground (arith, count-erase f g xs)

-- unblock() moves one entry of the fiber from the queue to the woken, and leaves all others alone;
-- it does nothing exactly if the fiber is not queued.
pub count-unblock :
    (f g : ℕ) (q : List ℕ)
    → (count g (unblock f q).1.queue + count g (unblock f q).1.fibers ≡ count g q)
      × ((unblock f q).0 ≡ ltb 0 (count f q))
unfolding unblock count
count-unblock f g q = ground (arith, count-contains f q, count-erase f g q, count-erase f f q)

-- A family indexed by fibers, changed at one fiber.
abbrev pub update {ℓ} : {A : Type ℓ} → (ℕ → A) → ℕ → A → ℕ → A
update p i a j = if i == j then a else p j

-- The same at each fiber of a list.
abbrev pub update_all {ℓ} : {A : Type ℓ} → (ℕ → A) → List ℕ → A → ℕ → A
update_all p [] a = p
update_all p (i ∷ is) a = update (update_all p is a) i a
