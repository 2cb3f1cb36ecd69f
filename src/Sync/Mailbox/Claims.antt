-- ===== src/Sync/Mailbox/Claims.antt =====
-- include/libzth/sync.h: the value of a Mailbox that is kept for one fiber.
use zth.Base.{ℕ, ◌≡◌, ◌≢◌, refl, true, false, some, List, [], ◌∷◌, ◌++◌, arith, ◌∙◌, ap, All, inl}
use zth.Sync.Queue.{unblock_first}
use zth.Sync.Future.{empty, valid, set_value, set_exception, unuse}
use zth.Sync.Mailbox.{Mailbox, Parcel, put, take, take_finalize, set_parcel}
use zth.Sync.Mailbox.Delivery.{
  System, Event, puts, takes, ==-refl, step, run, put_full, put_free, filled, take_blocks,
}

module _ {ℓ} {A : Type ℓ} where
  -- Any call but take() by this fiber.
  abbrev pub IsOther : ℕ → Event A → Type 0
  IsOther t (takes f) = t ≢ f
  IsOther t (puts f p) = Unit

  -- The box holds something that is kept for one fiber.
  abbrev Kept : ℕ → System A → Type 0
  Kept t s = (valid s.box.value ≡ true) × (s.box.assigned ≡ some t)

  record Same (t : ℕ) (s r : System A) : Type ℓ where
    kept : Kept t r
    sent : r.sent ≡ s.sent
    received : r.received ≡ s.received

  step-Same : (t : ℕ) (s : System A) (e : Event A) → IsOther t e → Kept t s → Same t s (step s e)
  unfolding step
  step-Same t s (puts f p) o k =
      rw (put_full f p s.box k.0) (record { kept = k; sent = refl; received = refl })
  step-Same t s (takes f) o k =
      rw (take_blocks f s.box (inl (ground arith)))
        (record { kept = k; sent = refl; received = refl })

  run-Same :
      (t : ℕ) (s : System A) (es : List (Event A))
      → All (IsOther t) es
      → Kept t s
      → Same t s (run s es)
  unfolding run
  run-Same t s [] o k = record { kept = k; sent = refl; received = refl }
  run-Same t s (e ∷ es) o k =
      let first = step-Same t s e o.0 k in
      let rest = run-Same t (step s e) es o.1 first.kept in
      record {
        kept = rest.kept;
        sent = rest.sent ∙ first.sent;
        received = rest.received ∙ first.received;
      }

  -- Where the three calls of `kept_for_first` lead, from a mailbox with nothing in it.
  claimed : ℕ → Parcel A → Parcel A → System A → System A
  claimed t v w s = record {
    box = record {
      value = set_parcel w empty;
      assigned = some t;
      put_queue = (unblock_first s.box.put_queue).queue;
      take_queue = [];
    };
    sent = (s.sent ++ v ∷ []) ++ w ∷ [];
    received = s.received ++ v ∷ [];
  }

  -- The mailbox with v in it for t, and after t took it.
  given : ℕ → Parcel A → System A → System A
  given t v s = record s {
    box = record s.box { value = set_parcel v empty; assigned = some t; take_queue = [] };
    sent = s.sent ++ v ∷ [];
  }

  passed : ℕ → Parcel A → System A → System A
  passed t v s = record s {
    box = record s.box {
      value = empty;
      assigned = some t;
      put_queue = (unblock_first s.box.put_queue).queue;
      take_queue = [];
    };
    sent = s.sent ++ v ∷ [];
    received = s.received ++ v ∷ [];
  }

  filled_for :
      (t : ℕ) (v : Parcel A) (m : Mailbox A)
      → m.take_queue ≡ t ∷ []
      → filled v m ≡ record m { value = set_parcel v empty; assigned = some t; take_queue = [] }
  unfolding filled unblock_first set_value set_exception unuse
  filled_for t (Parcel.value a) m e = rw e refl
  filled_for t (Parcel.exception a) m e = rw e refl

  step-given :
      (t p : ℕ) (v : Parcel A) (s : System A)
      → valid s.box.value ≡ false
      → s.box.take_queue ≡ t ∷ []
      → step s (puts p v) ≡ given t v s
  unfolding step given
  step-given t p v s free waits = rw (put_free p v s.box free) (
      ap (λ (m : Mailbox A). record s { box = m; sent = s.sent ++ v ∷ [] })
        (filled_for t v s.box waits))

  step-passed : (t : ℕ) (v : Parcel A) (s : System A) → step (given t v s) (takes t) ≡ passed t v s
  unfolding step given passed take take_finalize set_value set_exception unuse
  step-passed t (Parcel.value a) s = rw (==-refl t) refl
  step-passed t (Parcel.exception a) s = rw (==-refl t) refl

  step-claimed :
      (t q : ℕ) (v w : Parcel A) (s : System A) → step (passed t v s) (puts q w) ≡ claimed t v w s
  unfolding step passed claimed put unblock_first
  step-claimed t q v w s = refl

  module _ (t p q : ℕ) (v w : Parcel A) (s : System A) (free : valid s.box.value ≡ false)
      (waits : s.box.take_queue ≡ t ∷ []) where
    three_calls : step (step (step s (puts p v)) (takes t)) (puts q w) ≡ claimed t v w s
    three_calls =
        ap (λ (r : System A). step (step r (takes t)) (puts q w)) (step-given t p v s free waits)
        ∙ ap (λ (r : System A). step r (puts q w)) (step-passed t v s)
        ∙ step-claimed t q v w s

    run-claimed :
        (es : List (Event A))
        → run s (puts p v ∷ takes t ∷ puts q w ∷ es) ≡ run (claimed t v w s) es
    unfolding run
    run-claimed es = ap (λ (r : System A). run r es) three_calls

  claimed-Kept : (t : ℕ) (v w : Parcel A) (s : System A) → Kept t (claimed t v w s)
  unfolding claimed set_value set_exception unuse
  claimed-Kept t v (Parcel.value b) s = (refl, refl)
  claimed-Kept t v (Parcel.exception b) s = (refl, refl)

  -- A mailbox has nothing in it, and fiber t is the only one that waits in take(). If v is put,
  -- t takes it, and w is put, with no other call between these, then w stays in the mailbox
  -- through whatever puts and takes follow, as long as t does not take again: no other fiber
  -- gets w, and nothing more can be put, since take() does not give up the claim of the fiber
  -- that was woken.
  pub kept_for_first :
      (t p q : ℕ) (v w : Parcel A) (s : System A) (es : List (Event A))
      → valid s.box.value ≡ false
      → s.box.take_queue ≡ t ∷ []
      → All (IsOther t) es
      → let r = run s (puts p v ∷ takes t ∷ puts q w ∷ es) in
        (r.sent ≡ (s.sent ++ v ∷ []) ++ w ∷ [])
        × (r.received ≡ s.received ++ v ∷ [])
        × (valid r.box.value ≡ true)
  kept_for_first t p q v w s es free waits o = rw (run-claimed t p q v w s free waits es) (
      let r = run-Same t (claimed t v w s) es o (claimed-Kept t v w s) in
      unfold claimed in (r.sent, r.received, r.kept.0))
