-- ===== src/Fsm/Compile.antt =====
-- include/libzth/fsm14.h: what compile() makes of a list of transitions.
use zth.Base.{
  ℕ, zero, suc, ◌+◌, ◌<◌, ◌≡◌, ◌≢◌, ◌⊎◌, ◌∙◌, refl, subst, ap, true, false, Bool-cases, inl, inr,
  none, some, List, [], ◌∷◌, arith, if◌then◌else◌, ◌==◌, get_elem?,
}
use zth.Fsm.{Compiled, guard, always}
use zth.Fsm.Symbols.{Symbol, is_valid, equals-eq}
use zth.Fsm.Table.{
  Transition, Result, gives, throws, Invalid, find, starts, guard_end, compile_one, compile_from,
  compile, start, ◌>>=◌,
}
use zth.Fsm.Targets.{IsTarget, find-IsTarget}

-- A chain that does not throw: neither does its first part, nor what follows on that.
then-Result {ℓ κ} :
    {S : Type ℓ} {T : Type κ} (first : Result S) (next : S → Result T) {end : T}
    → (first >>= next) ≡ gives end
    → (s : S) × ((first ≡ gives s) × (next s ≡ gives end))
then-Result (throws why) next h = cc
then-Result (gives s) next h = (s, (refl, h))

-- An earlier transition is from this state.
abbrev pub IsEarlier : List Transition → ℕ → Symbol → Type 0
IsEarlier l k s = (j : ℕ) × (u : Transition) × (j < k) × (get_elem? l j ≡ some u) × (u.from ≡ s)

-- The state that an entry names: that of the first transition from there, and else none.
abbrev pub IsNamed : List Transition → ℕ → Symbol → Symbol → Type 0
IsNamed l k s named =
    ((named ≡ s) × (s ≢ none) × (IsEarlier l k s → ⊥))
    ⊎ ((named ≡ none) × ((s ≡ none) ⊎ IsEarlier l k s))

-- What the transition at index k is compiled to.
abbrev pub IsCompiled : List Transition → ℕ → Transition → Compiled → Type 0
IsCompiled l k t c =
    (c.trigger ≡ t.trigger)
    × (c.action ≡ t.action)
    × IsTarget l t.to c.to
    × IsNamed l k t.from c.from

-- The state before a transition is none, or that of an earlier one.
abbrev IsBefore : List Transition → ℕ → Symbol → Type 0
IsBefore l k prev = (prev ≡ none) ⊎ IsEarlier l k prev

is_valid-ne-none : (s : Symbol) → is_valid s ≡ true → s ≢ none
is_valid-ne-none none h = cc
is_valid-ne-none (some x) h = λ e. cc

invalid_none : (s : Symbol) → is_valid s ≡ false → s ≡ none
invalid_none none h = refl
invalid_none (some x) h = cc

first_index :
    (l : List Transition) (k : ℕ) (s : Symbol)
    → s ≢ none
    → IsTarget l s (k + 1)
    → IsEarlier l k s
    → ⊥
first_index l k none n h e = n refl
first_index l k (some s) n (i, t, p, q, r, f) (j, u, less, g, e) =
    f j u (omega (arith, p, less)) g e

starts-IsNamed :
    (l : List Transition) (k : ℕ) (prev : Symbol) (t : Transition)
    → starts prev t ≡ true
    → IsTarget l t.from (k + 1)
    → IsNamed l k t.from t.from
starts-IsNamed l k prev t b h =
    let valid = is_valid-ne-none t.from (ground (arith, b)) in
    inl (refl, valid, first_index l k t.from valid h)

goes_on_IsNamed :
    (l : List Transition) (k : ℕ) (prev : Symbol) (t : Transition)
    → starts prev t ≡ false
    → IsBefore l k prev
    → IsNamed l k t.from none
goes_on_IsNamed l k prev t b h = elim (Bool-cases (is_valid t.from)) [
  | inr e ↦ inr (refl, inl (invalid_none t.from e))
  | inl e ↦
      let same = equals-eq prev t.from (ground (arith, b, e)) in
      inr (refl, subst (IsBefore l k) same h)
]

named :
    (l : List Transition) (k m : ℕ) (prev : Symbol) (t : Transition)
    → IsBefore l k prev
    → (if starts prev t then find t.from l else gives (k + 1)) ≡ gives m
    → m ≡ k + 1
    → IsNamed l k t.from (if starts prev t then t.from else none)
named l k m prev t h p e = elim (Bool-cases (starts prev t)) [
  | inl b ↦ rw b (
      starts-IsNamed l k prev t b
        (subst (IsTarget l t.from) e (find-IsTarget t.from l m (rw b at p))))
  | inr b ↦ rw b (goes_on_IsNamed l k prev t b h)
]

checked_index : (m k : ℕ) (e : Invalid) {u : Unit {0}} → guard_end (m == k) e ≡ gives u → m ≡ k
checked_index m k e h = elim (Bool-cases (m == k)) [
  | inl b ↦ ground (arith, b)
  | inr b ↦ absurd (cc (rw b at h))
]

compile_one-IsCompiled :
    (l : List Transition) (k : ℕ) (prev : Symbol) (t : Transition) (c : Compiled)
    → IsBefore l k prev
    → compile_one l (k + 1) prev t ≡ gives c
    → IsCompiled l k t c
unfolding compile_one
compile_one-IsCompiled l k prev t c b h =
    let (m, (p, h')) = then-Result (if starts prev t then find t.from l else gives (k + 1)) _ h in
    let (u, (q, h'')) = then-Result (guard_end (m == k + 1) Invalid.not_contiguous) _ h' in
    let (n, (r, e)) = then-Result (find t.to l) _ h'' in
    let made : Compiled = record {
      trigger = t.trigger;
      action = t.action;
      from = if starts prev t then t.from else none;
      to = n;
    } in
    let same : made ≡ c = cc e in
    subst (IsCompiled l k t) same (
      refl,
      refl,
      find-IsTarget t.to l n r,
      named l k m prev t b p (checked_index m (k + 1) Invalid.not_contiguous q),
    )

-- The transitions ts are those of l from index n on.
abbrev IsRest : List Transition → ℕ → List Transition → Type 0
IsRest l n ts = (m : ℕ) → get_elem? l (n + m) ≡ get_elem? ts m

next-IsBefore :
    (l : List Transition) (n : ℕ) (prev : Symbol) (v : Transition)
    → get_elem? l n ≡ some v
    → IsBefore l n prev
    → IsBefore l (n + 1) (if starts prev v then v.from else prev)
next-IsBefore l n prev v g h = elim (Bool-cases (starts prev v)) [
  | inl b ↦ rw b (inr (n, v, omega arith, g, refl))
  | inr b ↦
      rw b
        (elim h [ inl e ↦ inl e | inr (j, u, less, q, e) ↦ inr (j, u, omega (arith, less), q, e) ])
]

IsRest-head :
    (l : List Transition) (n : ℕ) (v : Transition) (ts : List Transition)
    → IsRest l n (v ∷ ts)
    → get_elem? l n ≡ some v
IsRest-head l n v ts r = ap (get_elem? l) (omega arith) ∙ r 0

IsRest-tail :
    (l : List Transition) (n : ℕ) (v : Transition) (ts : List Transition)
    → IsRest l n (v ∷ ts)
    → IsRest l (n + 1) ts
IsRest-tail l n v ts r m = ap (get_elem? l) (omega arith) ∙ r (suc m)

compiled_at :
    (l : List Transition) (n : ℕ) (prev : Symbol) (ts : List Transition) (cs : List Compiled)
    → IsRest l n ts
    → IsBefore l n prev
    → compile_from l (n + 1) prev ts ≡ gives cs
    → (k : ℕ) (t : Transition) → get_elem? ts k ≡ some t
    → (c : Compiled) × (get_elem? cs k ≡ some c) × IsCompiled l (n + k) t c
unfolding compile_from
compiled_at l n prev [] cs r b h k t g = cc g
compiled_at l n prev (v ∷ ts) cs r b h k t g =
    let (c, (p, h')) = then-Result (compile_one l (n + 1) prev v) _ h in
    let (ds, (q, e)) =
      then-Result (compile_from l (n + 1 + 1) (if starts prev v then v.from else prev) ts) _ h' in
    let made : c ∷ ds ≡ cs = cc e in
    subst
      (λ (bs : List Compiled).
        (d : Compiled) × (get_elem? bs k ≡ some d) × IsCompiled l (n + k) t d)
      made
      (elim k
          as (λ x.
            get_elem? (v ∷ ts) x ≡ some t
            → (d : Compiled) × (get_elem? (c ∷ ds) x ≡ some d) × IsCompiled l (n + x) t d) [
              | zero ↦ λ w.
                  let same : v ≡ t = cc w in
                  (
                    c,
                    refl,
                    subst (λ (x : ℕ). IsCompiled l x t c) (omega arith)
                        (subst (λ (u : Transition). IsCompiled l n u c) same
                          (compile_one-IsCompiled l n prev v c b p)),
                  )
              | suc m ↦ λ w.
                  let (d, x, y) =
                    compiled_at l (n + 1) (if starts prev v then v.from else prev) ts ds
                      (IsRest-tail l n v ts r) (next-IsBefore l n prev v (IsRest-head l n v ts r) b)
                      q m t w in
                  (d, x, subst (λ (z : ℕ). IsCompiled l z t d) (omega arith) y)
            ]
        g)

-- If compile() does not throw, every transition of the table has its entry one index further on,
-- with its guard or input and its action; the entry names the state of the transition if there
-- is one and the transition is the first from it, and no state if there is none or an earlier
-- transition is from the same; and it goes to index 0 if the transition has no target, and
-- otherwise to the first transition from the target.
pub compile-IsCompiled :
    (l : List Transition) (table : List Compiled)
    → compile l ≡ gives table
    → (i : ℕ) (t : Transition) → get_elem? l i ≡ some t
    → (c : Compiled) × (get_elem? table (suc i) ≡ some c) × IsCompiled l i t c
unfolding compile
compile-IsCompiled [] table h i t g = cc g
compile-IsCompiled (v ∷ ts) table h i t g =
    let (u, (p, h')) = then-Result (guard_end (is_valid v.from) Invalid.first_state_invalid) _ h in
    let (cs, (q, e)) = then-Result (compile_from (v ∷ ts) 1 none (v ∷ ts)) _ h' in
    let made : start (guard always) 1 ∷ cs ≡ table = cc e in
    subst
      (λ (bs : List Compiled).
        (d : Compiled) × (get_elem? bs (suc i) ≡ some d) × IsCompiled (v ∷ ts) i t d)
      made
      (subst (λ (k : ℕ). (d : Compiled) × (get_elem? cs i ≡ some d) × IsCompiled (v ∷ ts) k t d)
        (omega arith)
        (compiled_at (v ∷ ts) 0 none (v ∷ ts) cs (λ m. ap (get_elem? (v ∷ ts)) (omega arith))
          (inl refl) q i t g))
