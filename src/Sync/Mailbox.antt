-- ===== src/Sync/Mailbox.antt =====
-- include/libzth/sync.h: class Mailbox, a place for one value or exception.
pub mod Delivery
pub mod Claims
mod Tests
use zth.Base.{
  ℕ, Bool, true, false, ◌&&◌, ◌||◌, Option, none, some, List, [], ◌∷◌, ◌++◌, head?, if◌then◌else◌,
  ◌==◌,
}
use zth.Sync.Queue.{enqueue, unblock_first, Woken}
use zth.Sync.Future.{Optional, empty, valid, set_value, set_exception, unuse}

-- m_value, m_assigned, and the queues Queue_Put and Queue_Take of Synchronizer<2>.
pub record Mailbox {ℓ} (A : Type ℓ) : Type ℓ where
  pub value : Optional A
  pub assigned : Option ℕ
  pub put_queue : List ℕ
  pub take_queue : List ℕ

-- What is put: put(type const&) or put(std::exception_ptr).
pub data Parcel {ℓ} (A : Type ℓ) : Type ℓ where
  value : A → Parcel A
  exception : ℕ → Parcel A

-- How a piece of take() ends: it returns or throws what was put, or the fiber blocks.
pub data Taken {ℓ} (A : Type ℓ) : Type ℓ where
  got : Parcel A → Taken A
  blocks : Taken A

-- Whether a fiber is the one that the value is kept for, or it is kept for none.
abbrev pub is_assigned : ℕ → Option ℕ → Bool
is_assigned f none = true
is_assigned f (some g) = g == f

-- wakeup() with Queue_Take: the value is kept for the fiber that is woken, if there is one.
abbrev pub assign : List ℕ → Option ℕ → Option ℕ
assign [] old = old
assign (f ∷ fs) old = some f

module _ {ℓ} {A : Type ℓ} where
  -- valid(assigned_type), for the fiber that asks; can_take() is this for the current fiber.
  abbrev pub valid_for : ℕ → Mailbox A → Bool
  valid_for f m = valid m.value && is_assigned f m.assigned

  abbrev pub set_parcel : Parcel A → Optional A → Optional A
  set_parcel (value a) o = set_value a o
  set_parcel (exception e) o = set_exception e o

  -- put() by a fiber, up to the point where it blocks or ends: whether it blocks, and the fibers that
  -- it wakes.
  unfoldable pub put : ℕ → Parcel A → Mailbox A → Bool × Mailbox A × List ℕ
  unfolding set_value set_exception
  put f p m =
      let w = unblock_first m.take_queue in
      if valid m.value then (true, record m { put_queue = enqueue f m.put_queue }, []) else (
        false,
        record m {
          value = set_parcel p m.value;
          assigned = assign w.fibers m.assigned;
          take_queue = w.queue;
        },
        w.fibers,
      )

  -- What is there, if the mailbox is valid: the exception goes first.
  abbrev pub contents : Optional A → Option (Parcel A)
  contents o = elim o.exception [
    | some e ↦ some (exception e)
    | none ↦ elim o.stored [ some a ↦ some (value a) | none ↦ none ]
  ]

  -- take_finalize()
  unfoldable pub take_finalize : Mailbox A → Mailbox A × List ℕ
  unfolding unuse
  take_finalize m =
      let w = unblock_first m.put_queue in
      (record m { value = unuse m.value; put_queue = w.queue }, w.fibers)

  -- take() by a fiber, up to the point where it blocks or ends.
  unfoldable pub take : ℕ → Mailbox A → Taken A × Mailbox A × List ℕ
  unfolding take_finalize
  take f m =
      let blocked : Taken A × Mailbox A × List ℕ =
        (blocks, record m { take_queue = enqueue f m.take_queue }, []) in
      if valid_for f m
      then elim (contents m.value) [
        | some p ↦ (got p, (take_finalize m).0, (take_finalize m).1)
        | none ↦ blocked
      ]
      else blocked
