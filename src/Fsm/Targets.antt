-- ===== src/Fsm/Targets.antt =====
-- include/libzth/fsm14.h: what find() gives for the state of a transition.
use zth.Base.{
  ℕ, zero, suc, ◌+◌, ◌<◌, ◌≡◌, ◌≢◌, refl, false, Bool-cases, inl, inr, none, some, List, [], ◌∷◌,
  arith, get_elem?,
}
use zth.Fsm.Symbols.{Symbol, is_valid, equals-eq, equals_refl}
use zth.Fsm.Symbols
use zth.Fsm.Table.{Transition, gives, find, find_from}

-- What a target is: 0 for none, and otherwise one more than the first index of the state.
abbrev pub IsTarget : List Transition → Symbol → ℕ → Type 0
IsTarget l none n = n ≡ 0
IsTarget l (some s) n =
    (i : ℕ) × (t : Transition) × (n ≡ i + 1)
    × (get_elem? l i ≡ some t)
    × (t.from ≡ some s)
    × ((j : ℕ) (u : Transition) → j < i → get_elem? l j ≡ some u → u.from ≢ some s)

no_earlier :
    (t : Transition) (ts : List Transition) (s : List ℕ) (i : ℕ)
    → Symbols.equals t.from (some s) ≡ false
    → ((j : ℕ) (u : Transition) → j < i → get_elem? ts j ≡ some u → u.from ≢ some s)
    → (j : ℕ) (u : Transition) → j < suc i
    → get_elem? (t ∷ ts) j ≡ some u
    → u.from ≢ some s
no_earlier t ts s i e f zero u l g q = cc (e, equals_refl (some s), g, q)
no_earlier t ts s i e f (suc j) u l g q = f j u (omega (arith, l)) g q

find_from-first :
    (k : ℕ) (s : List ℕ) (l : List Transition) (n : ℕ)
    → find_from k (some s) l ≡ gives n
    → (i : ℕ) × (t : Transition) × (n ≡ k + i + 1)
      × (get_elem? l i ≡ some t)
      × (t.from ≡ some s)
      × ((j : ℕ) (u : Transition) → j < i → get_elem? l j ≡ some u → u.from ≢ some s)
unfolding find_from
find_from-first k s [] n h = cc
find_from-first k s (t ∷ ts) n h = elim (Bool-cases (Symbols.equals t.from (some s))) [
  | inl e ↦ (
    0,
    t,
    ground (arith, h, e),
    refl,
    equals-eq t.from (some s) e,
    λ j u l. absurd (omega (arith, l)),
  )
  | inr e ↦
      let (i, v, p, q, r, f) = find_from-first (k + 1) s ts n (rw e at h) in
      (suc i, v, omega (arith, p), q, r, no_earlier t ts s i e f)
]

pub find-IsTarget : (s : Symbol) (l : List Transition) (n : ℕ) → find s l ≡ gives n → IsTarget l s n
unfolding find
find-IsTarget none l n h = cc
find-IsTarget (some s) l n h =
    let (i, t, p, q, r, f) = find_from-first 0 s l n h in (i, t, omega (arith, p), q, r, f)
