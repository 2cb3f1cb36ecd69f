-- ===== src/List/Ring.antt =====
-- include/libzth/list.h: distinct nodes whose pointers close a cycle, from any of them.
use zth.Base.{ℕ, ◌≡◌, ◌≢◌, sym, ◌∙◌, List, [], ◌∷◌, ◌++◌, arith, All-append, append-nil}
use zth.List.{write}
use zth.List.Cycle.{
  Linked, Away, Distinct, last, last-Away, Linked-join, Linked-split, Linked-write_prev,
  Linked-write_next,
}

abbrev pub Ring : (ℕ → ℕ) → (ℕ → ℕ) → List ℕ → Type 0
Ring prev next [] = Unit
Ring prev next (x ∷ xs) = Linked prev next x xs x × Away 0 (x ∷ xs) × Distinct (x ∷ xs)

pub All-split : (e : ℕ) (xs ys : List ℕ) → Away e (xs ++ ys) → Away e xs × Away e ys
All-split e [] ys h = (tt, h)
All-split e (x ∷ xs) ys h = let (p, q) = All-split e xs ys h.1 in ((h.0, p), q)

pub Away-swap : (e : ℕ) (xs ys : List ℕ) → Away e (xs ++ ys) → Away e (ys ++ xs)
Away-swap e xs ys h = let (p, q) = All-split e xs ys h in All-append (λ x. x ≢ e) ys xs q p

-- A node that is away from all others goes anywhere between them.
pub Distinct-put :
    (e : ℕ) (xs ys : List ℕ) → Away e (xs ++ ys) → Distinct (xs ++ ys) → Distinct (xs ++ e ∷ ys)
Distinct-put e [] ys a d = (a, d)
Distinct-put e (x ∷ xs) ys a d =
    let (p, q) = All-split x xs ys d.0 in
    (All-append (λ y. y ≢ x) xs (e ∷ ys) p (λ h. a.0 (sym h), q), Distinct-put e xs ys a.1 d.1)

-- And a node that goes leaves the others distinct.
pub Distinct-drop :
    (e : ℕ) (xs ys : List ℕ) → Distinct (xs ++ e ∷ ys) → Away e (xs ++ ys) × Distinct (xs ++ ys)
Distinct-drop e [] ys d = d
Distinct-drop e (x ∷ xs) ys d =
    let (a, b) = Distinct-drop e xs ys d.1 in
    let (p, q) = All-split x xs (e ∷ ys) d.0 in
    ((λ h. q.0 (sym h), a), (All-append (λ y. y ≢ x) xs ys p q.1, b))

Distinct-swap : (xs ys : List ℕ) → Distinct (xs ++ ys) → Distinct (ys ++ xs)
Distinct-swap [] ys d = rw (append-nil ys) d
Distinct-swap (x ∷ xs) ys d = Distinct-put x ys xs (Away-swap x xs ys d.0) (Distinct-swap xs ys d.1)

pub Ring-swap :
    (prev next : ℕ → ℕ) (xs ys : List ℕ) → Ring prev next (xs ++ ys) → Ring prev next (ys ++ xs)
Ring-swap prev next [] ys r = rw (append-nil ys) r
Ring-swap prev next (x ∷ xs) [] r = rw (sym (append-nil xs)) r
Ring-swap prev next (x ∷ xs) (y ∷ ys) r =
    let (p, q) = Linked-split prev next x xs y ys x r.0 in
    (
      Linked-join prev next y ys x xs y q p,
      Away-swap 0 (x ∷ xs) (y ∷ ys) r.1,
      Distinct-swap (x ∷ xs) (y ∷ ys) r.2,
    )

pub write_same : (f : ℕ → ℕ) (p v : ℕ) → write f p v p ≡ v
write_same f p v = ground arith

pub write_other : (f : ℕ → ℕ) (p v q : ℕ) → p ≢ q → write f p v q ≡ f q
write_other f p v q n = ground arith

-- The node e goes between the last node of a path and the end of it.
Linked-insert :
    (prev next : ℕ → ℕ) (e a : ℕ) (xs : List ℕ) (b : ℕ)
    → a ≢ e
    → Away e xs
    → b ≢ e
    → Distinct (a ∷ xs)
    → Away b xs
    → Linked prev next a xs b
    → Linked
        (write (write prev e (last a xs)) b e)
        (write (write next e b) (last a xs) e)
        a
        (xs ++ e ∷ [])
        b
Linked-insert prev next e a [] b n h m d w l =
    (ground arith, ground (arith, l.1), (ground arith, ground arith))
Linked-insert prev next e a (x ∷ xs) b n h m d w l =
    let t = last-Away x a xs d.0.0 d.0.1 in
    (
      write_other (write next e b) (last x xs) e a t
          ∙ write_other next e b a (λ q. n (sym q))
          ∙ l.0,
      write_other (write prev e (last x xs)) b e x (λ q. w.0 (sym q))
          ∙ write_other prev e (last x xs) x (λ q. h.0 (sym q))
          ∙ l.1,
      Linked-insert prev next e x xs b h.0 h.1 m d.1 w.1 l.2,
    )

-- The pointers of the last node of a path and of its end skip what was between.
Linked-skip :
    (prev next : ℕ → ℕ) (e a : ℕ) (xs : List ℕ) (b : ℕ)
    → Distinct (a ∷ xs)
    → Away b xs
    → Linked prev next a xs e
    → Linked (write prev b (last a xs)) (write next (last a xs) b) a xs b
Linked-skip prev next e a [] b d w l = (ground arith, ground arith)
Linked-skip prev next e a (x ∷ xs) b d w l =
    let t = last-Away x a xs d.0.0 d.0.1 in
    (
      write_other next (last x xs) b a t ∙ l.0,
      write_other prev b (last x xs) x (λ q. w.0 (sym q)) ∙ l.1,
      Linked-skip prev next e x xs b d.1 w.1 l.2,
    )

pub Ring-insert :
    (prev next : ℕ → ℕ) (e x : ℕ) (xs : List ℕ)
    → e ≢ 0
    → Away e (x ∷ xs)
    → Ring prev next (x ∷ xs)
    → Ring
        (write (write prev e (last x xs)) x e)
        (write (write next e x) (last x xs) e)
        (x ∷ xs ++ e ∷ [])
Ring-insert prev next e x xs n a r = (
  Linked-insert prev next e x xs x a.0 a.1 a.0 r.2 r.2.0 r.0,
  All-append (λ y. y ≢ 0) (x ∷ xs) (e ∷ []) r.1 (n, tt),
  Distinct-put e (x ∷ xs) [] (rw (append-nil xs) a) (rw (append-nil xs) r.2),
)

pub Ring-skip :
    (prev next : ℕ → ℕ) (e x : ℕ) (xs : List ℕ)
    → Ring prev next (e ∷ x ∷ xs)
    → Ring (write prev x (last x xs)) (write next (last x xs) x) (x ∷ xs)
Ring-skip prev next e x xs r = (Linked-skip prev next e x xs x r.2.1 r.2.1.0 r.0.2, r.1.1, r.2.1)

-- What is written to a node outside of the ring leaves it alone.
pub Ring-write :
    (prev next : ℕ → ℕ) (e v w : ℕ) (xs : List ℕ)
    → Away e xs
    → Ring prev next xs
    → Ring (write prev e v) (write next e w) xs
Ring-write prev next e v w [] a r = tt
Ring-write prev next e v w (x ∷ xs) a r = (
  Linked-write_prev prev (write next e w) e v x xs x a.1 a.0
      (Linked-write_next prev next e w x xs x a.0 a.1 r.0),
  r.1,
  r.2,
)
