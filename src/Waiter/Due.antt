-- ===== src/Waiter/Due.antt =====
-- src/waiter.cpp: the loop of Waiter::entry() over the waitables whose time has come.
use zth.Base.{
  ℕ, zero, suc, ◌+◌, ◌<◌, ◌≡◌, ◌≢◌, inl, inr, refl, sym, ap, subst, ◌∙◌, Bool, true, false, List,
  [], ◌∷◌, some, All, arith, Bool-cases, List-cases, if◌then◌else◌, ◌==◌,
}
use zth.Time.Stamp.{Timestamp}
use zth.Time.Stamp
use zth.List.Cycle.{Away}
use zth.SortedList.{goes_left}
use zth.SortedList.Order.{IsSorted, Before, goes_left_irrefl}
use zth.SortedList.Erase.{Before-Away}
use zth.SortedList.Insert.{insert_sorted, insert_sorted-IsSorted}
use zth.Waiter.{Waiter, Poll, sooner, due_one, run_due, wake_fiber}
use zth.Worker.{Worker}
use zth.Waiter.Poll.{IsFair, sooner-IsOrder, is_before-asym, is_before-between}

-- The timeout has come, or not.
abbrev pub IsDue : Timestamp → (ℕ → Timestamp) → ℕ → Type 0
IsDue now timeout x = Stamp.is_before (timeout x) now ≡ true

abbrev pub NotDue : Timestamp → (ℕ → Timestamp) → ℕ → Type 0
NotDue now timeout x = Stamp.is_before (timeout x) now ≡ false

abbrev pub due : Timestamp → (ℕ → Timestamp) → List ℕ → ℕ
due now timeout [] = 0
due now timeout (x ∷ xs) = (if Stamp.is_before (timeout x) now then 1 else 0) + due now timeout xs

abbrev Agree : (ℕ → Timestamp) → (ℕ → Timestamp) → ℕ → Type 0
Agree s t x = (y : ℕ) → y ≢ x → s y ≡ t y

Before-Agree :
    (s t : ℕ → Timestamp) (x y : ℕ) (ys : List ℕ)
    → Agree s t x
    → y ≢ x
    → Away x ys
    → Before (sooner t) y ys
    → Before (sooner s) y ys
Before-Agree s t x y [] g n a b = tt
Before-Agree s t x y (z ∷ zs) g n a b =
    (rw (g y n, g z a.0) b.0, Before-Agree s t x y zs g n a.1 b.1)

IsSorted-Agree :
    (s t : ℕ → Timestamp) (x : ℕ) (ys : List ℕ)
    → Agree s t x
    → Away x ys
    → IsSorted (sooner t) ys
    → IsSorted (sooner s) ys
IsSorted-Agree s t x [] g a h = tt
IsSorted-Agree s t x (y ∷ ys) g a h =
    (Before-Agree s t x y ys g a.0 a.1 h.0, IsSorted-Agree s t x ys g a.1 h.1)

due-Agree :
    (now : Timestamp) (s t : ℕ → Timestamp) (x : ℕ) (ys : List ℕ)
    → Agree s t x
    → Away x ys
    → due now s ys ≡ due now t ys
due-Agree now s t x [] g a = refl
due-Agree now s t x (y ∷ ys) g a = rw (g y a.0, due-Agree now s t x ys g a.1) refl

due-insert_sorted :
    (now : Timestamp) (t : ℕ → Timestamp) (comp : ℕ → ℕ → Bool) (x : ℕ) (ys : List ℕ)
    → NotDue now t x
    → due now t (insert_sorted comp x ys) ≡ due now t ys
unfolding insert_sorted
due-insert_sorted now t comp x [] n = rw n (omega arith)
due-insert_sorted now t comp x (y ∷ ys) n = elim (Bool-cases (goes_left comp x y)) [
  | inl e ↦ rw (e, n) (omega arith)
  | inr e ↦ rw (e, due-insert_sorted now t comp x ys n) refl
]

not_due :
    (now : Timestamp) (t : ℕ → Timestamp) (x y : ℕ)
    → NotDue now t x
    → goes_left (sooner t) x y ≡ true
    → NotDue now t y
not_due now t x y n b = elim (Bool-cases (Stamp.is_before (t y) now)) [
  | inr e ↦ e
  | inl e ↦ elim (is_before-between (t y) (t x) now e) [
    | inl p ↦ ground (arith, p, b, is_before-asym (t y) (t x) p)
    | inr q ↦ ground (arith, q, n)
  ]
]

-- What comes after a waitable that is not due is not due.
NotDue-after :
    (now : Timestamp) (t : ℕ → Timestamp) (x : ℕ) (ys : List ℕ)
    → NotDue now t x
    → Before (sooner t) x ys
    → All (NotDue now t) ys
NotDue-after now t x [] n b = tt
NotDue-after now t x (y ∷ ys) n b = (not_due now t x y n b.0, NotDue-after now t x ys n b.1)

module _ (poll : Poll) (now : Timestamp) (x : ℕ) (rest : List ℕ) (w : Waiter) where
  pub due_one_done :
      (poll x now w.timeout).0 ≡ true
      → (k : Worker) × (due_one poll now x rest w
          ≡ record w { worker = k; timeout = (poll x now w.timeout).1; waiting = rest })
  unfolding due_one
  due_one_done e = elim (Bool-cases (w.owner x == 0)) [
    | inl z ↦ rw (e, z) (w.worker, refl)
    | inr z ↦ rw (e, z) (wake_fiber (w.owner x) w.worker, refl)
  ]

  due_one_again :
      (poll x now w.timeout).0 ≡ false
      → due_one poll now x rest w ≡ record w {
        timeout = (poll x now w.timeout).1;
        waiting = insert_sorted (sooner (poll x now w.timeout).1) x rest;
      }
  unfolding due_one
  due_one_again e = rw e refl

module _ (fuel : ℕ) (poll : Poll) (now : Timestamp) (w : Waiter) where
  pub run_due_empty : w.waiting ≡ [] → run_due (suc fuel) poll now w ≡ some w
  unfolding run_due
  run_due_empty e = rw e refl

  pub run_due_stops :
      (x : ℕ) (rest : List ℕ)
      → w.waiting ≡ x ∷ rest
      → NotDue now w.timeout x
      → run_due (suc fuel) poll now w ≡ some w
  unfolding run_due
  run_due_stops x rest e n = rw (e, n) refl

  pub run_due_goes :
      (x : ℕ) (rest : List ℕ)
      → w.waiting ≡ x ∷ rest
      → IsDue now w.timeout x
      → run_due (suc fuel) poll now w ≡ run_due fuel poll now (due_one poll now x rest w)
  unfolding run_due
  run_due_goes x rest e d = rw (e, d) refl

-- One round of the loop at a waitable that is due.
module _ (poll : Poll) (now : Timestamp) (fair : IsFair poll now) where
  abbrev Left : (ℕ → Timestamp) → List ℕ → ℕ → Type 0
  Left t ys n = IsSorted (sooner t) ys × (due now t ys ≡ n)

  one_round :
      (x : ℕ) (rest : List ℕ) (w : Waiter)
      → IsSorted (sooner w.timeout) (x ∷ rest)
      → let w' = due_one poll now x rest w in Left w'.timeout w'.waiting (due now w.timeout rest)
  one_round x rest w s =
      let t : ℕ → Timestamp = (poll x now w.timeout).1 in
      let order = sooner-IsOrder w.timeout in
      let irrefl = goes_left_irrefl (sooner w.timeout) order x in
      let a = Before-Away (sooner w.timeout) order x x rest irrefl s.0 in
      let g = fair.own x w.timeout in
      let r = IsSorted-Agree t w.timeout x rest g a s.1 in
      let n = due-Agree now t w.timeout x rest g a in
      elim (Bool-cases (poll x now w.timeout).0) [
        | inl e ↦
            let (k, q) = due_one_done poll now x rest w e in
            subst (λ (v : Waiter). Left v.timeout v.waiting (due now w.timeout rest)) (sym q) (r, n)
        | inr e ↦
            subst (λ (v : Waiter). Left v.timeout v.waiting (due now w.timeout rest))
              (sym (due_one_again poll now x rest w e))
              (
                insert_sorted-IsSorted (sooner t) (sooner-IsOrder t) x rest a r,
                due-insert_sorted now t (sooner t) x rest (fair.later x w.timeout e) ∙ n,
              )
      ]

  -- The loop of the waiter over what is due ends after at most one round more than waitables are
  -- due, with the others still sorted and none of them due, if they were sorted, poll() of one
  -- sets no other timeout, and none that is over unless the wait is.
  pub run_due_ends :
      (fuel : ℕ) (w : Waiter)
      → IsSorted (sooner w.timeout) w.waiting
      → due now w.timeout w.waiting < fuel
      → (w' : Waiter) × (run_due fuel poll now w ≡ some w')
        × IsSorted (sooner w'.timeout) w'.waiting
        × All (NotDue now w'.timeout) w'.waiting
  run_due_ends zero w s b = ground (arith, b)
  run_due_ends (suc fuel) w s b = elim (List-cases w.waiting) [
    | inl e ↦ (w, run_due_empty fuel poll now w e, s, subst (All (NotDue now w.timeout)) (sym e) tt)
    | inr (x, rest, e) ↦
        let s' : IsSorted (sooner w.timeout) (x ∷ rest) = subst (IsSorted (sooner w.timeout)) e s in
        elim (Bool-cases (Stamp.is_before (w.timeout x) now)) [
          | inr n ↦ (
            w,
            run_due_stops fuel poll now w x rest e n,
            s,
            subst (All (NotDue now w.timeout)) (sym e)
                (n, NotDue-after now w.timeout x rest n s'.0),
          )
          | inl d ↦
              let (r, c) = one_round x rest w s' in
              let fewer : due now w.timeout w.waiting ≡ 1 + due now w.timeout rest =
                ap (due now w.timeout) e ∙ rw d refl in
              let (w', q, h, g) =
                run_due_ends fuel (due_one poll now x rest w) r (omega (arith, b, c, fewer)) in
              (w', run_due_goes fuel poll now w x rest e d ∙ q, h, g)
        ]
  ]
