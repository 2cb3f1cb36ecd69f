-- ===== src/Sync/Mailbox/Delivery.antt =====
-- include/libzth/sync.h: what goes through a Mailbox, and to whom.
use zth.Base.{
  ℕ, ◌≡◌, refl, Bool, true, false, none, some, List, [], ◌∷◌, ◌++◌, arith, ◌==◌, append-nil, ◌∙◌,
  ap, Bool-cases, Option-cases, inl, inr, ◌⊎◌,
}
use zth.Sync.Queue.{enqueue, unblock_first}
use zth.Sync.Future.{Optional, empty, valid, set_value, set_exception, unuse}
use zth.Sync.Mailbox.{
  Mailbox, Parcel, Taken, got, blocks, valid_for, put, take, take_finalize, contents, assign,
  set_parcel,
}

-- A mailbox, what has been put into it, and what has been taken from it, in order.
pub record System {ℓ} (A : Type ℓ) : Type ℓ where
  pub box : Mailbox A
  pub sent : List (Parcel A)
  pub received : List (Parcel A)

-- A piece of put() or of take() by a fiber, the first or a later one.
pub data Event {ℓ} (A : Type ℓ) : Type ℓ where
  puts : (fiber : ℕ) → Parcel A → Event A
  takes : (fiber : ℕ) → Event A

pub ==-refl : (n : ℕ) → (n == n) ≡ true
==-refl n = ground arith

module _ {ℓ} {A : Type ℓ} where
  abbrev pub start : System A
  start = record {
    box = record { value = empty; assigned = none; put_queue = []; take_queue = [] };
    sent = [];
    received = [];
  }

  abbrev finish_put : Parcel A → System A → Bool × Mailbox A × List ℕ → System A
  finish_put p s (true, m, fs) = record s { box = m }
  finish_put p s (false, m, fs) = record s { box = m; sent = s.sent ++ p ∷ [] }

  abbrev finish_take : System A → Taken A × Mailbox A × List ℕ → System A
  finish_take s (got p, m, fs) = record s { box = m; received = s.received ++ p ∷ [] }
  finish_take s (blocks, m, fs) = record s { box = m }

  unfoldable pub step : System A → Event A → System A
  step s (puts f p) = finish_put p s (put f p s.box)
  step s (takes f) = finish_take s (take f s.box)

  unfoldable pub run : System A → List (Event A) → System A
  run s [] = s
  run s (e ∷ es) = run (step s e) es

  -- What is in the box, as a list.
  abbrev pub inside : Optional A → List (Parcel A)
  inside o = elim (contents o) [ none ↦ [] | some p ↦ p ∷ [] ]

  Inv : System A → Type ℓ
  Inv s = s.sent ≡ s.received ++ inside s.box.value

  inside_invalid : (o : Optional A) → valid o ≡ false → inside o ≡ []
  inside_invalid o h = ground arith

  pub put_full :
      (f : ℕ) (p : Parcel A) (m : Mailbox A)
      → valid m.value ≡ true
      → put f p m ≡ (true, record m { put_queue = enqueue f m.put_queue }, [])
  unfolding put
  put_full f p m h = rw h

  -- put() into an empty mailbox.
  unfoldable pub filled : Parcel A → Mailbox A → Mailbox A
  filled p m = record m {
    value = set_parcel p m.value;
    assigned = assign (unblock_first m.take_queue).fibers m.assigned;
    take_queue = (unblock_first m.take_queue).queue;
  }

  pub put_free :
      (f : ℕ) (p : Parcel A) (m : Mailbox A)
      → valid m.value ≡ false
      → put f p m ≡ (false, filled p m, (unblock_first m.take_queue).fibers)
  unfolding put filled
  put_free f p m h = rw h

  inside-filled : (p : Parcel A) (m : Mailbox A) → inside (filled p m).value ≡ p ∷ []
  unfolding filled set_value set_exception unuse
  inside-filled (Parcel.value a) m = refl
  inside-filled (Parcel.exception e) m = refl

  step_puts : (f : ℕ) (p : Parcel A) (s : System A) → Inv s → Inv (step s (puts f p))
  unfolding step Inv
  step_puts f p s v = elim (Bool-cases (valid s.box.value)) [
    | inl h ↦ rw (put_full f p s.box h) v
    | inr h ↦
        rw (put_free f p s.box h, inside-filled p s.box)
          (ap (λ (l : List (Parcel A)). l ++ p ∷ [])
            (v ∙ rw (inside_invalid s.box.value h) (append-nil s.received)))
  ]

  pub take_blocks :
      (f : ℕ) (m : Mailbox A)
      → (valid_for f m ≡ false) ⊎ (contents m.value ≡ none)
      → take f m ≡ (blocks, record m { take_queue = enqueue f m.take_queue }, [])
  unfolding take
  take_blocks f m (inl h) = rw h
  take_blocks f m (inr h) = ground arith

  take_gets :
      (f : ℕ) (p : Parcel A) (m : Mailbox A)
      → valid_for f m ≡ true
      → contents m.value ≡ some p
      → take f m ≡ (got p, (take_finalize m).0, (take_finalize m).1)
  unfolding take
  take_gets f p m h e = rw h (ground arith)

  take_finalize_value : (m : Mailbox A) → (take_finalize m).0.value ≡ empty
  unfolding take_finalize unuse
  take_finalize_value m = refl

  step_takes : (f : ℕ) (s : System A) → Inv s → Inv (step s (takes f))
  unfolding step Inv
  step_takes f s v = elim (Option-cases (contents s.box.value)) [
    | inl e ↦ rw (take_blocks f s.box (inr e)) v
    | inr (p, e) ↦ elim (Bool-cases (valid_for f s.box)) [
      | inl h ↦
          rw (take_gets f p s.box h e, take_finalize_value s.box)
            (v ∙ ground (arith, e, append-nil (s.received ++ p ∷ [])))
      | inr h ↦ rw (take_blocks f s.box (inl h)) v
    ]
  ]

  step-Inv : (s : System A) (e : Event A) → Inv s → Inv (step s e)
  step-Inv s (puts f p) v = step_puts f p s v
  step-Inv s (takes f) v = step_takes f s v

  run-Inv : (s : System A) (es : List (Event A)) → Inv s → Inv (run s es)
  unfolding run
  run-Inv s [] v = v
  run-Inv s (e ∷ es) v = run-Inv (step s e) es (step-Inv s e v)

  -- After any history of puts and takes, what has been put is what has been taken, in the same
  -- order, followed by what is in the box: nothing is lost, made up, doubled or overtaken.
  pub delivered_in_order :
      (es : List (Event A))
      → (run start es).sent ≡ (run start es).received ++ inside (run start es).box.value
  unfolding Inv
  delivered_in_order es = run-Inv start es refl
