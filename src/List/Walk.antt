-- ===== src/List/Walk.antt =====
-- include/libzth/list.h: the loops over a List.
use zth.Base.{
  ℕ, suc, ◌≡◌, ◌≢◌, sym, ap, subst, ◌∙◌, List, [], ◌∷◌, arith, if◌then◌else◌, ◌==◌, ◌||◌, Bool,
  true, false, Option, some, length,
}
use mathlib.Core.Option
use zth.List.{
  Chain, Iterator, size_from, size, contains_from, contains, advance, equals, begin, end, get,
}
use zth.List.Cycle.{Linked, Away}
use zth.List.Refine.{Holds, test_no}

abbrev pub among : ℕ → List ℕ → Bool
among e [] = false
among e (x ∷ xs) = (x == e) || among e xs

choose : (x e : ℕ) (b : Bool) → (if x == e then some true else some b) ≡ some ((x == e) || b)
choose x e b = ground arith

-- An iterator at a node that is not the first one.
abbrev at : Chain → ℕ → Iterator
at l x = record { start = l.head; current = x }

equals_head : (l : Chain) (x : ℕ) → x ≡ l.head → equals (at l x) (end l) ≡ true
equals_head l x e = ground arith

equals_other : (l : Chain) (x : ℕ) → x ≢ l.head → equals (at l x) (end l) ≡ false
equals_other l x n = ground arith

advance_node : (l : Chain) (x : ℕ) → x ≢ 0 → advance l (at l x) ≡ at l (l.next x)
advance_node l x n = rw (test_no x 0 n)

advance-begin : (l : Chain) → l.head ≢ 0 → advance l (begin l) ≡ at l (l.next l.head)
advance-begin l n = rw (test_no l.head 0 n)

size_stop :
    (n : ℕ) (l : Chain) (i : Iterator) → equals i (end l) ≡ true → size_from (suc n) l i ≡ some 0
unfolding size_from
size_stop n l i e = rw e

size_step :
    (n : ℕ) (l : Chain) (i : Iterator)
    → equals i (end l) ≡ false
    → size_from (suc n) l i ≡ Option.map suc (size_from n l (advance l i))
unfolding size_from
size_step n l i e = rw e

contains_stop :
    (n : ℕ) (l : Chain) (e : ℕ) (i : Iterator)
    → equals i (end l) ≡ true
    → contains_from (suc n) l e i ≡ some false
unfolding contains_from
contains_stop n l e i q = rw q

contains_step :
    (n : ℕ) (l : Chain) (e : ℕ) (i : Iterator)
    → equals i (end l) ≡ false
    → contains_from (suc n) l e i
      ≡ (if get i == e then some true else contains_from n l e (advance l i))
unfolding contains_from
contains_step n l e i q = rw q

get_node : (l : Chain) (x : ℕ) → x ≢ 0 → get (at l x) ≡ x
get_node l x n = rw (test_no x 0 n)

get-begin : (l : Chain) → l.head ≢ 0 → get (begin l) ≡ l.head
get-begin l n = rw (test_no l.head 0 n)

equals-begin : (l : Chain) → l.head ≢ 0 → equals (begin l) (end l) ≡ false
equals-begin l n = ground arith

contains_go :
    (n : ℕ) (l : Chain) (e : ℕ) (i : Iterator) (x : ℕ) (j : Iterator) (b : Bool)
    → equals i (end l) ≡ false
    → get i ≡ x
    → advance l i ≡ j
    → contains_from n l e j ≡ some b
    → contains_from (suc n) l e i ≡ some ((x == e) || b)
contains_go n l e i x j b q g a h =
    contains_step n l e i q
    ∙ ap (λ (y : ℕ). if y == e then some true else contains_from n l e (advance l i)) g
    ∙ ap (λ (k : Iterator). if x == e then some true else contains_from n l e k) a
    ∙ ap (λ (o : Option Bool). if x == e then some true else o) h
    ∙ choose x e b

-- The loop of size() from the node after `a`, where the path ends at the first node.
size_walk :
    (l : Chain) (a : ℕ) (xs : List ℕ)
    → Linked l.prev l.next a xs l.head
    → Away 0 xs
    → Away l.head xs
    → size_from (suc (length xs)) l (at l (l.next a)) ≡ some (length xs)
size_walk l a [] k z d = size_stop 0 l (at l (l.next a)) (equals_head l (l.next a) k.0)
size_walk l a (x ∷ xs) k z d =
    subst (λ (y : ℕ). size_from (suc (suc (length xs))) l (at l y) ≡ some (suc (length xs)))
      (sym k.0)
      (size_step (suc (length xs)) l (at l x) (equals_other l x d.0)
        ∙ ap (λ (i : Iterator). Option.map suc (size_from (suc (length xs)) l i))
            (advance_node l x z.0)
        ∙ ap (Option.map suc) (size_walk l x xs k.2 z.1 d.1))

contains_walk :
    (l : Chain) (e a : ℕ) (xs : List ℕ)
    → Linked l.prev l.next a xs l.head
    → Away 0 xs
    → Away l.head xs
    → contains_from (suc (length xs)) l e (at l (l.next a)) ≡ some (among e xs)
contains_walk l e a [] k z d = contains_stop 0 l e (at l (l.next a)) (equals_head l (l.next a) k.0)
contains_walk l e a (x ∷ xs) k z d =
    subst (λ (y : ℕ). contains_from (suc (suc (length xs))) l e (at l y) ≡ some (among e (x ∷ xs)))
      (sym k.0)
      (contains_go (suc (length xs)) l e (at l x) x (at l (l.next x)) (among e xs)
        (equals_other l x d.0) (get_node l x z.0) (advance_node l x z.0)
        (contains_walk l e x xs k.2 z.1 d.1))

-- size() ends after one round more than a List has nodes, with their number.
pub size_lem : (l : Chain) (xs : List ℕ) → Holds l xs → size (suc (length xs)) l ≡ some (length xs)
size_lem l [] h = size_stop 0 l (begin l) (ground (arith, h.1))
size_lem l (x ∷ xs) h =
    let p : l.head ≡ x = h.1 in
    let n : l.head ≢ 0 = λ z. h.0.1.0 (sym p ∙ z) in
    let k = subst (λ (y : ℕ). Linked l.prev l.next y xs y) (sym p) h.0.0 in
    size_step (suc (length xs)) l (begin l) (equals-begin l n)
    ∙ ap (λ (i : Iterator). Option.map suc (size_from (suc (length xs)) l i)) (advance-begin l n)
    ∙ ap (Option.map suc)
        (size_walk l l.head xs k h.0.1.1 (subst (λ (y : ℕ). Away y xs) (sym p) h.0.2.0))

-- contains() ends after at most one round more than a List has nodes, and tells whether the node
-- is one of them.
pub contains_lem :
    (l : Chain) (e : ℕ) (xs : List ℕ)
    → Holds l xs
    → contains (suc (length xs)) l e ≡ some (among e xs)
contains_lem l e [] h = contains_stop 0 l e (begin l) (ground (arith, h.1))
contains_lem l e (x ∷ xs) h =
    let p : l.head ≡ x = h.1 in
    let n : l.head ≢ 0 = λ z. h.0.1.0 (sym p ∙ z) in
    let k = subst (λ (y : ℕ). Linked l.prev l.next y xs y) (sym p) h.0.0 in
    contains_go (suc (length xs)) l e (begin l) x (at l (l.next l.head)) (among e xs)
      (equals-begin l n) (get-begin l n ∙ p) (advance-begin l n)
      (contains_walk l e l.head xs k h.0.1.1 (subst (λ (y : ℕ). Away y xs) (sym p) h.0.2.0))
