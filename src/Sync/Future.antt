-- ===== src/Sync/Future.antt =====
-- include/libzth/sync.h: classes Optional and Future. An exception is a number.
pub mod Waiting
mod Tests
use zth.Base.{
  ℕ, ◌≡◌, Bool, true, false, ◌||◌, Option, none, some, List, [], ◌∷◌, ◌++◌, if◌then◌else◌,
}
use zth.Sync.Queue.{enqueue, unblock_all, Woken}

-- m_data while m_valid, and m_exception.
pub record Optional {ℓ} (A : Type ℓ) : Type ℓ where
  pub stored : Option A
  pub exception : Option ℕ

-- What value() does: return the value, throw the exception, or neither, if nothing is there.
pub data Access {ℓ} (A : Type ℓ) : Type ℓ where
  returns : A → Access A
  throws : ℕ → Access A
  invalid : Access A

-- m_value, and the queue of Synchronizer<1>.
pub record Future {ℓ} (A : Type ℓ) : Type ℓ where
  pub value : Optional A
  pub queue : List ℕ

module _ {ℓ} {A : Type ℓ} where
  abbrev pub is_some : Option A → Bool
  is_some none = false
  is_some (some a) = true

module _ {ℓ} {A : Type ℓ} where
  abbrev pub empty : Optional A
  empty = record { stored = none; exception = none }

  -- Optional::valid()
  abbrev pub valid : Optional A → Bool
  valid o = is_some o.stored || is_some o.exception

  -- Optional::reset() and unuse()
  unfoldable pub unuse : Optional A → Optional A
  unuse o = empty

  -- Optional::set(type const&)
  unfoldable pub set_value : A → Optional A → Optional A
  unfolding unuse
  set_value a o = record (unuse o) { stored = some a }

  -- Optional::set(std::exception_ptr)
  unfoldable pub set_exception : ℕ → Optional A → Optional A
  unfolding unuse
  set_exception e o = record (unuse o) { exception = some e }

  -- Optional::value()
  unfoldable pub access : Optional A → Access A
  access o = elim o.exception [
    | some e ↦ throws e
    | none ↦ elim o.stored [ some a ↦ returns a | none ↦ invalid ]
  ]

  -- Future::wait() up to block(): whether the fiber blocks.
  unfoldable pub wait : ℕ → Future A → Bool × Future A
  wait f u = if valid u.value then (false, u) else (true, record u { queue = enqueue f u.queue })

  abbrev finalize : Optional A → List ℕ → Future A × List ℕ
  finalize o q = let w = unblock_all q in (record { value = o; queue = w.queue }, w.fibers)

  -- Future::set(type const&), of a future that is not valid, and the fibers that it wakes.
  unfoldable pub set : A → Future A → Future A × List ℕ
  unfolding set_value
  set a u = finalize (set_value a u.value) u.queue

  -- Future::set(std::exception_ptr)
  unfoldable pub fail : ℕ → Future A → Future A × List ℕ
  unfolding set_exception
  fail e u = finalize (set_exception e u.value) u.queue
