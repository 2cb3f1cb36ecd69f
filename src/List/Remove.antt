-- ===== src/List/Remove.antt =====
-- include/libzth/list.h: the operations that take nodes off a List.
use zth.Base.{
  ℕ, ◌≡◌, ◌≢◌, refl, sym, subst, ◌∙◌, List, [], ◌∷◌, ◌++◌, arith, ◌==◌, Bool, true, false,
  append-nil,
}
use zth.List.{Chain, write, bypass, forget, pop_back, pop_front, erase}
use zth.List.Cycle.{Away, last, last-Away}
use zth.List.Ring.{Ring, Ring-swap, Away-swap, Ring-skip, Ring-write, write_other, All-split}
use zth.List.Refine.{Holds, final-append, test_no, prev_first}

test_yes : (a b : ℕ) → a ≡ b → (a == b) ≡ true
test_yes a b e = ground arith

bypass_first :
    (l : Chain) (e : ℕ) (ws : List ℕ)
    → Ring l.prev l.next (e ∷ ws)
    → Ring (bypass e l).prev (bypass e l).next ws
bypass_first l e [] r = tt
bypass_first l e (x ∷ xs) r =
    let skipped : (t n : ℕ) → Type 0 =
      λ t n. Ring (write l.prev (write l.next t n e) t) (write l.next t n) (x ∷ xs) in
    let n : l.next e ≡ x = r.0.0 in
    let t : l.prev e ≡ last x xs = prev_first l.prev l.next e (x ∷ xs) r in
    let apart : last x xs ≢ e = last-Away x e xs r.2.0.0 r.2.0.1 in
    subst (λ (p : ℕ). skipped p (l.next e)) (sym t)
      (subst (λ (q : ℕ). skipped (last x xs) q) (sym n)
        (subst (λ (q : ℕ). Ring (write l.prev q (last x xs)) (write l.next (last x xs) x) (x ∷ xs))
          (sym (write_other l.next (last x xs) x e apart ∙ n)) (Ring-skip l.prev l.next e x xs r)))

bypass_lem :
    (l : Chain) (xs : List ℕ) (e : ℕ) (ys : List ℕ)
    → Ring l.prev l.next (xs ++ e ∷ ys)
    → Ring (bypass e l).prev (bypass e l).next (xs ++ ys)
bypass_lem l xs e ys r =
    Ring-swap (bypass e l).prev (bypass e l).next ys xs
      (bypass_first l e (ys ++ xs) (Ring-swap l.prev l.next xs (e ∷ ys) r))

apart_from :
    (prev next : ℕ → ℕ) (xs : List ℕ) (e : ℕ) (ys : List ℕ)
    → Ring prev next (xs ++ e ∷ ys)
    → Away e (xs ++ ys)
apart_from prev next xs e ys r = Away-swap e ys xs (Ring-swap prev next xs (e ∷ ys) r).2.0

Holds-forget :
    (c : Bool) (e : ℕ) (l : Chain) (xs : List ℕ) → Away e xs → Holds l xs → Holds (forget c e l) xs
Holds-forget false e l xs a h = h
Holds-forget true e l xs a h = (Ring-write l.prev l.next e 0 0 xs a h.0, h.1, h.2)

pop_front_only :
    (c : Bool) (l : Chain)
    → l.tail ≡ l.head
    → pop_front c l ≡ forget c l.head (record l { head = 0; tail = 0 })
unfolding pop_front
pop_front_only c l e = rw (test_yes l.tail l.head e)

pop_front_more :
    (c : Bool) (l : Chain)
    → l.tail ≢ l.head
    → pop_front c l ≡ forget c l.head (bypass l.head (record l { head = l.next l.head }))
unfolding pop_front
pop_front_more c l n = rw (test_no l.tail l.head n)

pub pop_front_lem :
    (c : Bool) (l : Chain) (x : ℕ) (xs : List ℕ) → Holds l (x ∷ xs) → Holds (pop_front c l) xs
pop_front_lem c l x [] h =
    subst (λ (k : Chain). Holds k []) (sym (pop_front_only c l (h.2 ∙ sym h.1)))
      (Holds-forget c l.head (record l { head = 0; tail = 0 }) [] tt (tt, refl, refl))
pop_front_lem c l x (y ∷ ys) h =
    let p : l.head ≡ x = h.1 in
    let q : l.tail ≢ l.head = λ z. last-Away y x ys h.0.2.0.0 h.0.2.0.1 (sym h.2 ∙ z ∙ p) in
    subst (λ (k : Chain). Holds k (y ∷ ys)) (sym (pop_front_more c l q))
      (subst (λ (b : ℕ). Holds (forget c b (bypass b (record l { head = l.next b }))) (y ∷ ys))
        (sym p)
        (Holds-forget c x (bypass x (record l { head = l.next x })) (y ∷ ys) h.0.2.0
          (bypass_first l x (y ∷ ys) h.0, h.0.0.0, h.2)))

pop_back_only :
    (c : Bool) (l : Chain)
    → l.tail ≡ l.head
    → pop_back c l ≡ forget c l.tail (record l { head = 0; tail = 0 })
unfolding pop_back
pop_back_only c l e = rw (test_yes l.tail l.head e)

pop_back_more :
    (c : Bool) (l : Chain)
    → l.tail ≢ l.head
    → pop_back c l ≡ forget c l.tail (bypass l.tail (record l { tail = l.prev l.tail }))
unfolding pop_back
pop_back_more c l n = rw (test_no l.tail l.head n)

pub pop_back_lem :
    (c : Bool) (l : Chain) (xs : List ℕ) (e : ℕ) → Holds l (xs ++ e ∷ []) → Holds (pop_back c l) xs
pop_back_lem c l [] e h =
    subst (λ (k : Chain). Holds k []) (sym (pop_back_only c l (h.2 ∙ sym h.1)))
      (Holds-forget c l.tail (record l { head = 0; tail = 0 }) [] tt (tt, refl, refl))
pop_back_lem c l (x ∷ xs) e h =
    let r = Ring-swap l.prev l.next (x ∷ xs) (e ∷ []) h.0 in
    let p : l.tail ≡ e = h.2 ∙ final-append (x ∷ xs) e [] in
    let q : l.tail ≢ l.head = λ z. r.2.0.0 (sym h.1 ∙ sym z ∙ p) in
    subst (λ (k : Chain). Holds k (x ∷ xs)) (sym (pop_back_more c l q))
      (subst (λ (b : ℕ). Holds (forget c b (bypass b (record l { tail = l.prev b }))) (x ∷ xs))
        (sym p)
        (Holds-forget c e (bypass e (record l { tail = l.prev e })) (x ∷ xs) r.2.0
          (bypass_first l e (x ∷ xs) r, h.1, prev_first l.prev l.next e (x ∷ xs) r)))

erase_first : (c : Bool) (e : ℕ) (l : Chain) → l.head ≡ e → erase c e l ≡ pop_front c l
unfolding erase
erase_first c e l p = rw (test_yes l.head e p)

erase_last : (c : Bool) (e : ℕ) (l : Chain) → l.head ≢ e → l.tail ≡ e → erase c e l ≡ pop_back c l
unfolding erase
erase_last c e l n p = rw (test_no l.head e n, test_yes l.tail e p)

erase_inner :
    (c : Bool) (e : ℕ) (l : Chain) → l.head ≢ e → l.tail ≢ e → erase c e l ≡ forget c e (bypass e l)
unfolding erase
erase_inner c e l n m = rw (test_no l.head e n, test_no l.tail e m)

-- erase() of a node of a List that holds a sequence leaves the List with the sequence without
-- that node, wherever it is: first, last, the only one or between others; also if the pointers
-- of the node are cleared.
pub erase_lem :
    (c : Bool) (l : Chain) (xs : List ℕ) (e : ℕ) (ys : List ℕ)
    → Holds l (xs ++ e ∷ ys)
    → Holds (erase c e l) (xs ++ ys)
erase_lem c l [] e ys h =
    subst (λ (k : Chain). Holds k ys) (sym (erase_first c e l h.1)) (pop_front_lem c l e ys h)
erase_lem c l (x ∷ xs) e [] h =
    let a = apart_from l.prev l.next (x ∷ xs) e [] h.0 in
    let n : l.head ≢ e = λ z. a.0 (sym h.1 ∙ z) in
    let p : l.tail ≡ e = h.2 ∙ final-append (x ∷ xs) e [] in
    subst (λ (k : Chain). Holds k (x ∷ xs ++ [])) (sym (erase_last c e l n p))
      (subst (Holds (pop_back c l)) (sym (append-nil (x ∷ xs))) (pop_back_lem c l (x ∷ xs) e h))
erase_lem c l (x ∷ xs) e (y ∷ ys) h =
    let a = apart_from l.prev l.next (x ∷ xs) e (y ∷ ys) h.0 in
    let n : l.head ≢ e = λ z. a.0 (sym h.1 ∙ z) in
    let b = (All-split e (x ∷ xs) (y ∷ ys) a).1 in
    let t : l.tail ≡ last y ys = h.2 ∙ final-append (x ∷ xs) e (y ∷ ys) in
    let m : l.tail ≢ e = λ z. last-Away y e ys b.0 b.1 (sym t ∙ z) in
    subst (λ (k : Chain). Holds k (x ∷ xs ++ y ∷ ys)) (sym (erase_inner c e l n m))
      (Holds-forget c e (bypass e l) (x ∷ xs ++ y ∷ ys) a
        (bypass_lem l (x ∷ xs) e (y ∷ ys) h.0, h.1, t ∙ sym (final-append (x ∷ xs) y ys)))
