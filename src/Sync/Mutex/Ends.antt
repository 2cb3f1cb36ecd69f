-- ===== src/Sync/Mutex/Ends.antt =====
-- include/libzth/sync.h: how a piece of a call of a Mutex can end.
use zth.Base.{ℕ, ◌≡◌, ◌⊎◌, inl, inr, refl, Bool, Bool-cases, true, false, List, [], ◌∷◌, arith}
use zth.Time.Stamp.{Timestamp}
use zth.Time.Stamp
use zth.Sync.Queue.{enqueue, unblock_first}
use zth.Sync.Mutex.{
  Mutex, Outcome, spins, blocks, acquired, refused, lock, trylock, trylock_until, trylock_again,
  unlock,
}

-- The mutex is taken; it is locked, and the fiber is queued, goes round or is refused; or the fiber
-- is refused since its alarm rang.
abbrev pub Ends : ℕ → Bool → Mutex → Outcome × Mutex → Type 0
Ends i rang m r =
    ((m.locked ≡ false) × (r ≡ (acquired, record m { locked = true })))
    ⊎ (((m.locked ≡ true) × (r ≡ (blocks, record m { queue = enqueue i m.queue })))
        ⊎ (((m.locked ≡ true) × (r ≡ (spins, m)))
            ⊎ (((m.locked ≡ true) ⊎ (rang ≡ true)) × (r ≡ (refused, m)))))

pub lock-Ends : (i : ℕ) (m : Mutex) → Ends i false m (lock i m)
unfolding lock
lock-Ends i m = elim (Bool-cases m.locked) [
  | inl e ↦ inr (inl (e, ground (arith, e)))
  | inr e ↦ inl (e, ground (arith, e))
]

pub trylock-Ends : (i : ℕ) (m : Mutex) → Ends i false m (trylock m)
unfolding trylock
trylock-Ends i m = elim (Bool-cases m.locked) [
  | inl e ↦ inr (inr (inr (inl e, ground (arith, e))))
  | inr e ↦ inl (e, ground (arith, e))
]

pub trylock_until-Ends :
    (i : ℕ) (timeout now : Timestamp) (m : Mutex) → Ends i false m (trylock_until i timeout now m)
unfolding trylock_until
trylock_until-Ends i timeout now m = elim (Bool-cases m.locked) [
  | inl e ↦ elim (Bool-cases (Stamp.le timeout now)) [
    | inl t ↦ inr (inr (inl (e, ground (arith, e, t))))
    | inr t ↦ inr (inl (e, ground (arith, e, t)))
  ]
  | inr e ↦ inl (e, ground (arith, e))
]

pub trylock_again-Ends :
    (rang : Bool) (i : ℕ) (timeout now : Timestamp) (m : Mutex)
    → Ends i rang m (trylock_again rang i timeout now m)
unfolding trylock_again
trylock_again-Ends true i timeout now m = inr (inr (inr (inr refl, refl)))
trylock_again-Ends false i timeout now m = trylock_until-Ends i timeout now m

pub unlock_alone :
    (m : Mutex) → m.queue ≡ [] → unlock m ≡ (record { locked = false; queue = [] }, [])
unfolding unlock unblock_first
unlock_alone m e = ground arith

pub unlock_queued :
    (m : Mutex) (f : ℕ) (q : List ℕ)
    → m.queue ≡ f ∷ q
    → unlock m ≡ (record { locked = false; queue = q }, f ∷ [])
unfolding unlock unblock_first
unlock_queued m f q e = ground arith
