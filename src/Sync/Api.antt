-- ===== src/Sync/Api.antt =====
-- include/libzth/sync.h: the C functions for a Mutex and a Semaphore. Those that call a method give
-- the piece of the method up to where it blocks or ends; the function returns 0 at its end.
pub mod Trywait
pub mod Events
pub mod Mailboxes
mod Tests
use zth.Base.{
  ℕ, ◌-◌, ◌^◌, ◌⊎◌, inl, inr, Bool, true, false, Option, none, some, List, [], ltb, ◌==◌,
  if◌then◌else◌,
}
use zth.Fiber.{einval, eagain}
use zth.Sync.Mutex.{Mutex, lock, trylock, unlock}
use zth.Sync.Mutex
use zth.Sync.Semaphore.{Semaphore, acquire, release, count_max}
use zth.Sync.Semaphore

abbrev pub enomem : ℕ
enomem = 12

abbrev pub ebusy : ℕ
ebusy = 16

abbrev pub edom : ℕ
edom = 33

abbrev pub eoverflow : ℕ
eoverflow = 75

-- std::numeric_limits<size_t>::max()
abbrev pub size_max : ℕ
size_max = 2 ^ 64 - 1

-- A pointer to a handle: null, or a struct with its member p, which is null or an object.
abbrev pub Handle {ℓ} : Type ℓ → Type ℓ
Handle A = Option (Option A)

-- How `new` ends: with an object, with std::bad_alloc, or with another exception.
pub data Made : Type 0 where
  made no_memory failed : Made

abbrev pub made_code : Made → ℕ
made_code made = 0
made_code no_memory = enomem
made_code failed = eagain

module _ {ℓ} {A : Type ℓ} where
  -- The functions zth_..._init().
  unfoldable pub create : Made → A → Handle A → ℕ × Handle A
  create how a none = (einval, none)
  create how a (some (some b)) = (einval, some (some b))
  create made a (some none) = (made_code made, some (some a))
  create how a (some none) = (made_code how, some none)

  -- The functions zth_..._destroy().
  unfoldable pub destroy : Handle A → ℕ × Handle A
  destroy none = (einval, none)
  destroy (some _) = (0, some none)

  -- The guard of the others: an error code, or what the method gives on the object.
  unfoldable pub with_object {κ} : {R : Type κ} → (A → R × A) → Handle A → (ℕ ⊎ R) × Handle A
  with_object g none = (inl einval, none)
  with_object g (some none) = (inl einval, some none)
  with_object g (some (some a)) = (inr (g a).0, some (some (g a).1))

abbrev pub mutex_init : Made → Handle Mutex → ℕ × Handle Mutex
mutex_init how h = create how (record { locked = false; queue = [] }) h

abbrev pub mutex_destroy : Handle Mutex → ℕ × Handle Mutex
mutex_destroy h = destroy h

abbrev pub mutex_lock : ℕ → Handle Mutex → (ℕ ⊎ Mutex.Outcome) × Handle Mutex
mutex_lock f h = with_object (lock f) h

-- The code for the outcome of Mutex::trylock().
abbrev pub trylock_code : Mutex.Outcome → ℕ
trylock_code Mutex.acquired = 0
trylock_code _ = ebusy

abbrev pub mutex_trylock : Handle Mutex → (ℕ ⊎ ℕ) × Handle Mutex
mutex_trylock h = with_object (λ m. (trylock_code (trylock m).0, (trylock m).1)) h

-- The result has the fibers that are woken.
abbrev pub mutex_unlock : Handle Mutex → (ℕ ⊎ List ℕ) × Handle Mutex
mutex_unlock h = with_object (λ m. ((unlock m).1, (unlock m).0)) h

unfoldable pub sem_init : Made → ℕ → Handle Semaphore → ℕ × Handle Semaphore
sem_init how value (some none) =
    if ltb count_max value
    then (edom, some none)
    else create how (record { count = value; wake_all = false; queue = [] }) (some none)
sem_init how value h = (einval, h)

abbrev pub sem_destroy : Handle Semaphore → ℕ × Handle Semaphore
sem_destroy h = destroy h

-- What the functions below do with the object: an error code, or how a piece of acquire() ends and
-- the fibers that are woken.
abbrev pub Piece : Type 0
Piece = ℕ ⊎ Semaphore.Outcome × List ℕ

-- Given whether the pointer to the value is not null.
abbrev pub sem_getvalue : Bool → Handle Semaphore → (ℕ ⊎ ℕ) × Handle Semaphore
sem_getvalue false h = (inl einval, h)
sem_getvalue true h = with_object (λ s. (s.count, s)) h

abbrev pub post : Semaphore → (ℕ ⊎ List ℕ) × Semaphore
post s = if s.count == size_max then (inl eoverflow, s) else (inr (release 1 s).1, (release 1 s).0)

abbrev pub sem_post : Handle Semaphore → (ℕ ⊎ (ℕ ⊎ List ℕ)) × Handle Semaphore
sem_post h = with_object post h

abbrev pub taken : ℕ → Semaphore → Piece × Semaphore
taken f s = let r = acquire f 1 s in (inr (r.0, r.2), r.1)

abbrev pub sem_wait : ℕ → Handle Semaphore → (ℕ ⊎ Piece) × Handle Semaphore
sem_wait f h = with_object (taken f) h

abbrev pub try_taken : ℕ → Semaphore → Piece × Semaphore
try_taken f s = if s.count == 0 then (inl eagain, s) else taken f s

abbrev pub sem_trywait : ℕ → Handle Semaphore → (ℕ ⊎ Piece) × Handle Semaphore
sem_trywait f h = with_object (try_taken f) h
