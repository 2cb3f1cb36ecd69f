-- ===== src/Fsm/Step.antt =====
-- include/libzth/fsm14.h: what step() does, and the stack of states.
use zth.Base.{
  ℕ, ◌+◌, ◌≡◌, ◌≢◌, refl, sym, ap, subst, ◌∙◌, true, false, Bool-cases, inl, inr, List, [], ◌∷◌,
  ◌++◌, arith, if◌then◌else◌, ◌==◌, length, All,
}
use zth.Time.Interval.{TimeInterval}
use zth.Time.Interval
use zth.Time.Stamp.{Timestamp}
use zth.Fsm.{
  Fsm, Compiled, found, none_enabled, Trigger, enabled, scan, ends_state, take, finish, step, push,
  pop, drop, poll_interval, try_run, is_input,
}
use zth.List.Refine.{test_no}
use zth.Fsm.Symbols.{Symbol, is_valid}

-- The guards of some transitions of one state are tried in order, with what they do to the machine,
-- and none of them is enabled.
abbrev pub AllRefuse : List Compiled → Fsm → Fsm → Type 0
AllRefuse [] f f' = f ≡ f'
AllRefuse (c ∷ cs) f f' =
    (Interval.has_passed (enabled c f).0 ≡ false) × AllRefuse cs (enabled c f).1 f'

-- The transitions after the first one of a state: they have no state of their own.
abbrev pub Continues : List Compiled → Type 0
Continues = All (λ c. is_valid c.from ≡ false)

scan_refused :
    (i : ℕ) (again : TimeInterval) (c d : Compiled) (ds : List Compiled) (f : Fsm)
    → Interval.has_passed (enabled c f).0 ≡ false
    → is_valid d.from ≡ false
    → (next : TimeInterval) × (scan i again (c ∷ d ∷ ds) f
        ≡ scan (i + 1) next (d ∷ ds) (enabled c f).1)
unfolding scan
scan_refused i again c d ds f p q =
    (if Interval.lt (enabled c f).0 again then (enabled c f).0 else again, rw (p, q))

scan_found :
    (i : ℕ) (again : TimeInterval) (c : Compiled) (ds : List Compiled) (f : Fsm)
    → Interval.has_passed (enabled c f).0 ≡ true
    → scan i again (c ∷ ds) f ≡ (found i c, (enabled c f).1)
unfolding scan
scan_found i again c ds f p = rw p

abbrev pub tail : List Compiled → List Compiled
tail [] = []
tail (c ∷ cs) = cs

-- The loop finds the first transition of the state that is enabled.
scan_first :
    (i : ℕ) (again : TimeInterval) (cs : List Compiled) (c : Compiled) (rest : List Compiled)
    (f f' : Fsm)
    → AllRefuse cs f f'
    → Interval.has_passed (enabled c f').0 ≡ true
    → Continues (tail (cs ++ c ∷ []))
    → scan i again (cs ++ c ∷ rest) f ≡ (found (i + length cs) c, (enabled c f').1)
scan_first i again [] c rest f f' r p k =
    subst (λ (g : Fsm). scan i again (c ∷ rest) g ≡ (found (i + 0) c, (enabled c f').1)) (sym r)
      (scan_found i again c rest f' p ∙ ap (λ (n : ℕ). (found n c, (enabled c f').1)) (omega arith))
scan_first i again (b ∷ []) c rest f f' r p k =
    let (next, e) = scan_refused i again b c rest f r.0 k.0 in
    e
    ∙ scan_first (i + 1) next [] c rest (enabled b f).1 f' r.1 p tt
    ∙ ap (λ (n : ℕ). (found n c, (enabled c f').1)) (omega arith)
scan_first i again (b ∷ b' ∷ cs) c rest f f' r p k =
    let (next, e) = scan_refused i again b b' (cs ++ c ∷ rest) f r.0 k.0 in
    e
    ∙ scan_first (i + 1) next (b' ∷ cs) c rest (enabled b f).1 f' r.1 p k.1
    ∙ ap (λ (n : ℕ). (found n c, (enabled c f').1)) (omega arith)

scan_last :
    (i : ℕ) (again : TimeInterval) (c : Compiled) (rest : List Compiled) (f : Fsm)
    → Interval.has_passed (enabled c f).0 ≡ false
    → ends_state rest ≡ true
    → (next : TimeInterval) × (scan i again (c ∷ rest) f ≡ (none_enabled next, (enabled c f).1))
unfolding scan
scan_last i again c rest f p q =
    (if Interval.lt (enabled c f).0 again then (enabled c f).0 else again, rw (p, q))

scan_none :
    (i : ℕ) (again : TimeInterval) (c : Compiled) (cs : List Compiled) (rest : List Compiled)
    (f f' : Fsm)
    → AllRefuse (c ∷ cs) f f'
    → Continues cs
    → ends_state rest ≡ true
    → (next : TimeInterval) × (scan i again (c ∷ cs ++ rest) f ≡ (none_enabled next, f'))
scan_none i again c [] rest f f' r k q =
    let (next, e) = scan_last i again c rest f r.0 q in
    (next, e ∙ ap (λ (g : Fsm). (none_enabled next, g)) r.1)
scan_none i again c (d ∷ ds) rest f f' r k q =
    let (next, e) = scan_refused i again c d (ds ++ rest) f r.0 k.0 in
    let (last, e') = scan_none (i + 1) next d ds rest (enabled c f).1 f' r.1 k.1 q in (last, e ∙ e')

-- If the first transitions of the current state are not enabled and the next one is, step()
-- takes that one, and gives a poll interval that has passed; the guards before it are asked in
-- order, and what they change in the machine is kept.
pub step_first :
    (table : List Compiled) (now : Timestamp) (cs : List Compiled) (c : Compiled)
    (rest : List Compiled) (f f' : Fsm)
    → drop f.state table ≡ cs ++ c ∷ rest
    → Continues (tail (cs ++ c ∷ []))
    → AllRefuse cs f f'
    → Interval.has_passed (enabled c f').0 ≡ true
    → step table now f ≡ (poll_interval true, take now (f.state + length cs) c (enabled c f').1)
unfolding step finish
step_first table now cs c rest f f' d k r p =
    ap (λ (bs : List Compiled). finish now (scan f.state (poll_interval false) bs f)) d
    ∙ ap (finish now) (scan_first f.state (poll_interval false) cs c rest f f' r p k)

pub step_blocks :
    (table : List Compiled) (now : Timestamp) (c : Compiled) (cs : List Compiled)
    (rest : List Compiled) (f f' : Fsm)
    → drop f.state table ≡ c ∷ cs ++ rest
    → Continues cs
    → ends_state rest ≡ true
    → AllRefuse (c ∷ cs) f f'
    → (again : TimeInterval) × (step table now f
        ≡ (again, record f' { flags = record f'.flags { blocked = true } }))
unfolding step finish
step_blocks table now c cs rest f f' d k q r =
    let (again, e) = scan_none f.state (poll_interval false) c cs rest f f' r k q in
    (
      again,
      ap (λ (bs : List Compiled). finish now (scan f.state (poll_interval false) bs f)) d
          ∙ ap (finish now) e,
    )

entered_by_push : Timestamp → ℕ → Compiled → Fsm → Fsm
entered_by_push now i c f = record f {
  transition = i;
  prev = f.state;
  state = c.to;
  stack = f.state ∷ f.stack;
  entered = now;
  flags = record f.flags {
    blocked = false;
    selfloop = c.to == f.state;
    transition = true;
    popped = false;
    pushed = true;
    input = is_input c;
    entry = true;
  };
}

take-push :
    (now : Timestamp) (i : ℕ) (g : Trigger) (s : Symbol) (to : ℕ) (f : Fsm)
    → i ≢ 0
    → to ≢ 0
    → let c : Compiled = record { trigger = g; action = push; from = s; to = to } in
      take now i c f ≡ entered_by_push now i c f
unfolding take push entered_by_push
take-push now i g s to f n m = rw (test_no to 0 m, test_no i 0 n)

-- A transition with the action push to another state, and then pop(), are back in the state from
-- which it was taken, with the stack as it was, the state that was entered as the previous one,
-- and the flag popped.
pub pop-take-push :
    (now later : Timestamp) (i : ℕ) (g : Trigger) (s : Symbol) (to : ℕ) (f : Fsm)
    → i ≢ 0
    → to ≢ 0
    → let c : Compiled = record { trigger = g; action = push; from = s; to = to } in
      let h = pop later (take now i c f) in
      ((take now i c f).state ≡ to)
      × (h.state ≡ f.state)
      × (h.prev ≡ to)
      × (h.stack ≡ f.stack)
      × (h.flags.popped ≡ true)
unfolding pop entered_by_push
pop-take-push now later i g s to f n m =
    let c : Compiled = record { trigger = g; action = push; from = s; to = to } in
    subst
      (λ (h : Fsm).
        (h.state ≡ to)
        × ((pop later h).state ≡ f.state)
        × ((pop later h).prev ≡ to)
        × ((pop later h).stack ≡ f.stack)
        × ((pop later h).flags.popped ≡ true))
      (sym (take-push now i g s to f n m)) (refl, refl, refl, refl, refl)

-- tryRun() gives a poll interval that has passed, whether or not its guard or input is enabled.
pub try_run_passes : (c : Compiled) (f : Fsm) → Interval.has_passed (try_run c f).0 ≡ true
unfolding try_run Interval.has_passed
try_run_passes c f = elim (Bool-cases (Interval.has_passed (enabled c f).0)) [
  | inl e ↦ rw e
  | inr e ↦ rw e
]
