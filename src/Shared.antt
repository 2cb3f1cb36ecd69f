-- ===== src/Shared.antt =====
-- include/libzth/sync.h and include/libzth/util.h: SharedPointer and the references that a RefCounted
-- counts. The pointers are numbered, and hold an object, or 0; one that does not exist yet, or no
-- longer, holds 0. release(), which hands a counted reference to the caller, is a step of the move.
pub mod Counts
pub mod History
mod Tests
use zth.Base.{ℕ, zero, suc, ◌+◌, ◌-◌, Bool, true, false, ◌||◌, List, [], ◌∷◌, ◌==◌, if◌then◌else◌}

-- What each pointer holds, the m_count of each object, and the objects that were cleaned up.
pub record Store : Type 0 where
  pub held : List ℕ
  pub refs : ℕ → ℕ
  pub freed : List ℕ

abbrev pub get : List ℕ → ℕ → ℕ
get [] i = 0
get (x ∷ xs) zero = x
get (x ∷ xs) (suc i) = get xs i

abbrev pub set : List ℕ → ℕ → ℕ → List ℕ
set [] i y = []
set (x ∷ xs) zero y = y ∷ xs
set (x ∷ xs) (suc i) y = x ∷ set xs i y

abbrev pub put : (ℕ → ℕ) → ℕ → ℕ → ℕ → ℕ
put f x n y = if x == y then n else f y

-- RefCounted::used() and RefCounted::unused(), of an object or null.
unfoldable pub used : ℕ → Store → Store
used x s = if x == 0 then s else record s { refs = put s.refs x (s.refs x + 1) }

unfoldable pub unused : ℕ → Store → Store
unused x s =
    let left = s.refs x - 1 in
    if x == 0
    then s
    else (record s { refs = put s.refs x left; freed = if left == 0 then x ∷ s.freed else s.freed })

-- reset() of pointer i. The constructors reset a pointer that holds 0, and the destructor resets
-- it to 0.
unfoldable pub reset : ℕ → ℕ → Store → Store
unfolding used unused
reset i x s =
    let old = get s.held i in let s' = unused old (used x s) in record s' { held = set s'.held i x }

-- The assignment of pointer j to pointer i.
unfoldable pub assign : ℕ → ℕ → Store → Store
unfolding reset
assign i j s = reset i (get s.held j) s

-- The assignment that moves pointer j to pointer i.
unfoldable pub move : ℕ → ℕ → Store → Store
unfolding reset
move i j s =
    let s' = reset i 0 s in
    let object = get s'.held j in record s' { held = set (set s'.held j 0) i object }
