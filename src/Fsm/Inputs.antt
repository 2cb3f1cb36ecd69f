-- ===== src/Fsm/Inputs.antt =====
-- include/libzth/fsm14.h: the input symbols of a machine.
use zth.Base.{
  ℕ, ◌+◌, ◌≡◌, refl, ap, subst, ◌<◌, ◌∙◌, Bool, true, false, Bool-cases, inl, inr, none, some, List,
  [], ◌∷◌, ◌++◌, arith, if◌then◌else◌,
}
use zth.Fsm.{Fsm, has_input}
use zth.Fsm.Symbols.{Symbol, equals-eq, equals_refl}
use zth.Fsm.Symbols

-- input(Symbol)
unfoldable pub add_input : Symbol → Fsm → Fsm
add_input none f = f
add_input (some s) f = record f { inputs = f.inputs ++ some s ∷ [] }

-- The last of a list that starts with x, and a list without its last.
pub last_of : Symbol → List Symbol → Symbol
last_of x [] = x
last_of x (y ∷ ys) = last_of y ys

pub init_of : List Symbol → List Symbol
init_of [] = []
init_of (x ∷ []) = []
init_of (x ∷ y ∷ ys) = x ∷ init_of (y ∷ ys)

-- The loop of clearInput(): m_inputs[j] = m_inputs.back(); m_inputs.pop_back().
unfoldable pub clear_from : Symbol → List Symbol → Bool × List Symbol
unfolding Symbols.equals last_of init_of
clear_from s [] = (false, [])
clear_from s (i ∷ is) =
    let rest : Bool × List Symbol = (let r = clear_from s is in (r.0, i ∷ r.1)) in
    if Symbols.equals i s then (true, init_of (last_of i is ∷ is)) else rest

unfoldable pub clear_input : Symbol → Fsm → Bool × Fsm
unfolding clear_from
clear_input none f = (false, f)
clear_input (some s) f =
    let (done, kept) = clear_from (some s) f.inputs in (done, record f { inputs = kept })

-- How often a symbol is there.
unfoldable pub count : Symbol → List Symbol → ℕ
count s [] = 0
count s (i ∷ is) = (if Symbols.equals i s then 1 else 0) + count s is

count-last :
    (s x : Symbol) (xs : List Symbol)
    → count s (x ∷ xs)
      ≡ count s (init_of (x ∷ xs)) + (if Symbols.equals (last_of x xs) s then 1 else 0)
unfolding count init_of last_of
count-last s x [] = omega arith
count-last s x (y ∷ ys) = omega (arith, count-last s y ys)

abbrev pub one_of : Symbol → Symbol → ℕ
one_of i s = if Symbols.equals i s then 1 else 0

clear_last : (r i : Symbol) (is : List Symbol) → count r (init_of (last_of i is ∷ is)) ≡ count r is
unfolding count init_of last_of
clear_last r i [] = refl
clear_last r i (y ∷ ys) = omega (arith, count-last r (last_of y ys) (y ∷ ys))

counted :
    (i s r : Symbol) (is : List Symbol) (p : Bool × List Symbol)
    → count r p.1 + (if p.0 then one_of s r else 0) ≡ count r is
    → count r (i ∷ p.1) + (if p.0 then one_of s r else 0) ≡ count r (i ∷ is)
unfolding count
counted i s r is p h = omega (arith, h)

-- What clearInput() leaves.
clear_counts :
    (s r : Symbol) (is : List Symbol)
    → count r (clear_from s is).1 + (if (clear_from s is).0 then one_of s r else 0) ≡ count r is
unfolding clear_from
clear_counts s r [] = unfold count in omega arith
clear_counts s r (i ∷ is) = elim (Bool-cases (Symbols.equals i s)) [
  | inl e ↦ rw e (
      ap (λ (n : ℕ). n + one_of s r) (clear_last r i is)
      ∙ unfold count in rw (equals-eq i s e) (omega arith))
  | inr e ↦ rw e (counted i s r is (clear_from s is) (clear_counts s r is))
]

clear_done : (s : List ℕ) (is : List Symbol) → (clear_from (some s) is).0 ≡ has_input (some s) is
unfolding clear_from has_input
clear_done s [] = refl
clear_done s (i ∷ is) = ground (arith, clear_done s is)

count-has_input :
    (s : List ℕ) (is : List Symbol) → has_input (some s) is ≡ true → 0 < count (some s) is
unfolding count has_input
count-has_input s [] h = absurd (cc)
count-has_input s (i ∷ is) h = ground (arith, count-has_input s is)

-- clearInput() of a valid symbol returns whether hasInput() has it, takes one of it from the
-- inputs if so, and keeps how often every other symbol is there.
pub clear_input_takes :
    (s : List ℕ) (r : Symbol) (f : Fsm)
    → ((clear_input (some s) f).0 ≡ has_input (some s) f.inputs)
      × (count r (clear_input (some s) f).1.inputs
            + (if has_input (some s) f.inputs then one_of (some s) r else 0)
          ≡ count r f.inputs)
unfolding clear_input
clear_input_takes s r f = (
  clear_done s f.inputs,
  subst
      (λ (b : Bool).
        count r (clear_from (some s) f.inputs).1 + (if b then one_of (some s) r else 0)
        ≡ count r f.inputs)
      (clear_done s f.inputs) (clear_counts (some s) r f.inputs),
)
