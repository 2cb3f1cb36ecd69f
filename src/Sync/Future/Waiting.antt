-- ===== src/Sync/Future/Waiting.antt =====
-- include/libzth/sync.h: what fibers that wait for a Future see.
use zth.Base.{ℕ, ◌≡◌, refl, true, false, List, [], ◌∷◌, ◌++◌, append-nil, append_assoc, ◌∙◌}
use zth.Sync.Queue.{enqueue, unblock_all_lem}
use zth.Sync.Future.{returns, throws, Future, valid, access, wait, set, fail}

-- Some fibers wait for a future, one after the other: the fibers that block, in order.
pub wait_each {ℓ} : {A : Type ℓ} → List ℕ → Future A → Future A
wait_each [] u = u
wait_each (f ∷ fs) u = wait_each fs (wait f u).1

module _ {ℓ} {A : Type ℓ} where
  wait-invalid :
      (f : ℕ) (u : Future A)
      → valid u.value ≡ false
      → wait f u ≡ (true, record u { queue = enqueue f u.queue })
  unfolding wait
  wait-invalid f u h = rw h

  wait-valid : (f : ℕ) (u : Future A) → valid u.value ≡ true → wait f u ≡ (false, u)
  unfolding wait
  wait-valid f u h = rw h

  wait_each_queue :
      (fs : List ℕ) (u : Future A)
      → valid u.value ≡ false
      → wait_each fs u ≡ record u { queue = u.queue ++ fs }
  unfolding wait_each
  wait_each_queue [] u h = rw append-nil
  wait_each_queue (f ∷ fs) u h =
      rw (wait-invalid f u h)
        (wait_each_queue fs (record u { queue = enqueue f u.queue }) h ∙ simp append_assoc)

  -- A value that is set in a Future without one goes to every fiber: those that wait are all
  -- woken, in the order in which they came, no later one blocks, and each gets that value.
  pub set_delivers :
      (fs : List ℕ) (f : ℕ) (a : A) (u : Future A)
      → valid u.value ≡ false
      → let r = set a (wait_each fs u) in
        (r.1 ≡ u.queue ++ fs)
        × (r.0.queue ≡ [])
        × (access r.0.value ≡ returns a)
        × (wait f r.0 ≡ (false, r.0))
  unfolding set access wait
  set_delivers fs f a u h =
      rw (wait_each_queue fs u h, unblock_all_lem (u.queue ++ fs)) (refl, refl, refl, refl)

  -- An exception that is set in a Future without a value goes to every fiber: those that wait
  -- are all woken, in the order in which they came, no later one blocks, and each gets that
  -- exception.
  pub fail_delivers :
      (fs : List ℕ) (f e : ℕ) (u : Future A)
      → valid u.value ≡ false
      → let r = fail e (wait_each fs u) in
        (r.1 ≡ u.queue ++ fs)
        × (r.0.queue ≡ [])
        × (access r.0.value ≡ throws e)
        × (wait f r.0 ≡ (false, r.0))
  unfolding fail access wait
  fail_delivers fs f e u h =
      rw (wait_each_queue fs u h, unblock_all_lem (u.queue ++ fs)) (refl, refl, refl, refl)
