-- ===== src/List/Cycle.antt =====
-- include/libzth/list.h: the pointers of a List as a path of nodes that closes.
use zth.Base.{ℕ, ◌≡◌, ◌≢◌, List, [], ◌∷◌, ◌++◌, arith, All}
use zth.List.{write}

-- From `a` through `xs` to `b`, each node points to the next and back.
abbrev pub Linked : (ℕ → ℕ) → (ℕ → ℕ) → ℕ → List ℕ → ℕ → Type 0
Linked prev next a [] b = (next a ≡ b) × (prev b ≡ a)
Linked prev next a (x ∷ xs) b = (next a ≡ x) × (prev x ≡ a) × Linked prev next x xs b

-- A node is not among others.
abbrev pub Away : ℕ → List ℕ → Type 0
Away e = All (λ x. x ≢ e)

abbrev pub Distinct : List ℕ → Type 0
Distinct [] = Unit
Distinct (x ∷ xs) = Away x xs × Distinct xs

abbrev pub last : ℕ → List ℕ → ℕ
last a [] = a
last a (x ∷ xs) = last x xs

pub last-Away : (a e : ℕ) (xs : List ℕ) → a ≢ e → Away e xs → last a xs ≢ e
last-Away a e [] n h = n
last-Away a e (x ∷ xs) n h = last-Away x e xs h.0 h.1

pub last_prev :
    (prev next : ℕ → ℕ) (a : ℕ) (xs : List ℕ) (b : ℕ) → Linked prev next a xs b → prev b ≡ last a xs
last_prev prev next a [] b l = l.1
last_prev prev next a (x ∷ xs) b l = last_prev prev next x xs b l.2

pub last_next :
    (prev next : ℕ → ℕ) (a : ℕ) (xs : List ℕ) (b : ℕ)
    → Linked prev next a xs b
    → next (last a xs) ≡ b
last_next prev next a [] b l = l.0
last_next prev next a (x ∷ xs) b l = last_next prev next x xs b l.2

pub Linked-join :
    (prev next : ℕ → ℕ) (a : ℕ) (xs : List ℕ) (y : ℕ) (ys : List ℕ) (b : ℕ)
    → Linked prev next a xs y
    → Linked prev next y ys b
    → Linked prev next a (xs ++ y ∷ ys) b
Linked-join prev next a [] y ys b l m = (l.0, l.1, m)
Linked-join prev next a (x ∷ xs) y ys b l m = (l.0, l.1, Linked-join prev next x xs y ys b l.2 m)

pub Linked-split :
    (prev next : ℕ → ℕ) (a : ℕ) (xs : List ℕ) (y : ℕ) (ys : List ℕ) (b : ℕ)
    → Linked prev next a (xs ++ y ∷ ys) b
    → Linked prev next a xs y × Linked prev next y ys b
Linked-split prev next a [] y ys b l = ((l.0, l.1), l.2)
Linked-split prev next a (x ∷ xs) y ys b l =
    let (p, q) = Linked-split prev next x xs y ys b l.2 in ((l.0, l.1, p), q)

-- Writes to nodes that are not on the path leave it alone.
pub Linked-write_prev :
    (prev next : ℕ → ℕ) (e v a : ℕ) (xs : List ℕ) (b : ℕ)
    → Away e xs
    → b ≢ e
    → Linked prev next a xs b
    → Linked (write prev e v) next a xs b
Linked-write_prev prev next e v a [] b h n l = (l.0, ground (arith, l.1))
Linked-write_prev prev next e v a (x ∷ xs) b h n l =
    (l.0, ground (arith, l.1, h.0), Linked-write_prev prev next e v x xs b h.1 n l.2)

pub Linked-write_next :
    (prev next : ℕ → ℕ) (e v a : ℕ) (xs : List ℕ) (b : ℕ)
    → a ≢ e
    → Away e xs
    → Linked prev next a xs b
    → Linked prev (write next e v) a xs b
Linked-write_next prev next e v a [] b n h l = (ground (arith, l.0), l.1)
Linked-write_next prev next e v a (x ∷ xs) b n h l =
    (ground (arith, l.0), l.1, Linked-write_next prev next e v x xs b h.0 h.1 l.2)
