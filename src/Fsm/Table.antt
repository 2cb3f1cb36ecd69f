-- ===== src/Fsm/Table.antt =====
-- include/libzth/fsm14.h: class Transition and compile(), which makes a table of them.
use zth.Base.{ℕ, ◌+◌, Bool, true, false, not, ◌&&◌, none, some, List, [], ◌∷◌, ◌==◌, if◌then◌else◌}
use zth.Fsm.{Trigger, Action, Compiled, guard, always, never, nothing}
use zth.Fsm.Symbols.{Symbol, is_valid}
use zth.Fsm.Symbols

-- Transition
pub record Transition : Type 0 where
  pub from : Symbol
  pub trigger : Trigger
  pub action : Action
  pub to : Symbol

-- What compile() throws.
pub data Invalid : Type 0 where
  first_state_invalid not_contiguous target_not_found : Invalid

pub data Result {ℓ} (S : Type ℓ) : Type ℓ where
  throws : Invalid → Result S
  gives : S → Result S

-- What throws leaves the chain.
infixl 5 ◌>>=◌
abbrev pub ◌>>=◌ {ℓ κ} : {S : Type ℓ} {T : Type κ} → Result S → (S → Result T) → Result T
throws why >>= next = throws why
gives s >>= next = next s

-- The loop of find() from index i.
unfoldable pub find_from : ℕ → Symbol → List Transition → Result ℕ
unfolding Symbols.equals
find_from i s [] = throws target_not_found
find_from i s (t ∷ ts) =
    let rest = find_from (i + 1) s ts in if Symbols.equals t.from s then gives (i + 1) else rest

unfoldable pub find : Symbol → List Transition → Result ℕ
unfolding find_from
find none l = gives 0
find (some s) l = find_from 0 (some s) l

abbrev pub guard_end : Bool → Invalid → Result (Unit {0})
guard_end true e = gives tt
guard_end false e = throws e

-- The start of a state in the loop of compile(), where the one before is `prev`.
abbrev pub starts : Symbol → Transition → Bool
starts prev t = not (Symbols.equals prev t.from) && is_valid t.from

-- One round of the loop of compile(), at index i.
unfoldable pub compile_one : List Transition → ℕ → Symbol → Transition → Result Compiled
unfolding find
compile_one l i prev t = do
  first ← if starts prev t then find t.from l else gives i
  checked ← guard_end (first == i) not_contiguous
  target ← find t.to l
  gives (record {
    trigger = t.trigger;
    action = t.action;
    from = if starts prev t then t.from else none;
    to = target;
  })

unfoldable pub compile_from :
    List Transition → ℕ → Symbol → List Transition → Result (List Compiled)
unfolding compile_one
compile_from l i prev [] = gives []
compile_from l i prev (t ∷ ts) = do
  c ← compile_one l i prev t
  cs ← compile_from l (i + 1) (if starts prev t then t.from else prev) ts
  gives (c ∷ cs)

-- The dummy transition at index 0.
abbrev pub start : Trigger → ℕ → Compiled
start g to = record { trigger = g; action = nothing; from = none; to = to }

unfoldable pub compile : List Transition → Result (List Compiled)
unfolding compile_from
compile [] = gives (start (guard never) 0 ∷ [])
compile (t ∷ ts) = do
  checked ← guard_end (is_valid t.from) first_state_invalid
  cs ← compile_from (t ∷ ts) 1 none (t ∷ ts)
  gives (start (guard always) 1 ∷ cs)
