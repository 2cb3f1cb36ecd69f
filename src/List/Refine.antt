-- ===== src/List/Refine.antt =====
-- include/libzth/list.h: the operations of a List as operations on a sequence.
use zth.Base.{
  ℕ, ◌≡◌, ◌≢◌, refl, sym, subst, ◌∙◌, List, [], ◌∷◌, ◌++◌, arith, ◌==◌, false, append_assoc,
}
use zth.List.{Chain, write, push_back, push_front, rotate, insert_before}
use zth.List.Cycle.{Away, last, last-Away, last_prev, last_next}
use zth.List.Ring.{Ring, Ring-swap, Ring-insert, write_same, write_other, Away-swap}

abbrev pub first : List ℕ → ℕ
first [] = 0
first (x ∷ xs) = x

abbrev pub final : List ℕ → ℕ
final [] = 0
final (x ∷ xs) = last x xs

-- The list has the nodes of a sequence: they are distinct and not null, the pointers close a cycle,
-- and m_head and m_tail are its ends.
abbrev pub Holds : Chain → List ℕ → Type 0
Holds l xs = Ring l.prev l.next xs × (l.head ≡ first xs) × (l.tail ≡ final xs)

pub final-append : (xs : List ℕ) (y : ℕ) (ys : List ℕ) → final (xs ++ y ∷ ys) ≡ last y ys
final-append [] y ys = refl
final-append (x ∷ []) y ys = refl
final-append (x ∷ x' ∷ xs) y ys = final-append (x' ∷ xs) y ys

-- The node before the first one of a ring, which may start anywhere.
pub prev_first :
    (prev next : ℕ → ℕ) (x : ℕ) (xs : List ℕ) → Ring prev next (x ∷ xs) → prev x ≡ last x xs
prev_first prev next x xs r = last_prev prev next x xs x r.0

pub next_last :
    (prev next : ℕ → ℕ) (x : ℕ) (xs : List ℕ) → Ring prev next (x ∷ xs) → next (last x xs) ≡ x
next_last prev next x xs r = last_next prev next x xs x r.0

-- rotate() to a node of a List leaves the List with the sequence turned to start at that node.
pub rotate_lem :
    (l : Chain) (xs : List ℕ) (y : ℕ) (ys : List ℕ)
    → Holds l (xs ++ y ∷ ys)
    → Holds (rotate y l) (y ∷ ys ++ xs)
unfolding rotate
rotate_lem l xs y ys h =
    let r = Ring-swap l.prev l.next xs (y ∷ ys) h.0 in
    (r, refl, prev_first l.prev l.next y (ys ++ xs) r)

pub test_no : (a b : ℕ) → a ≢ b → (a == b) ≡ false
test_no a b n = ground arith

-- The pointers after a node e is put between the nodes t and x.
abbrev between_prev : ℕ → ℕ → ℕ → (ℕ → ℕ) → ℕ → ℕ
between_prev t e x prev = write (write prev e t) x e

abbrev between_next : ℕ → ℕ → ℕ → (ℕ → ℕ) → ℕ → ℕ
between_next t e x next = write (write next e x) t e

push_back-between :
    (l : Chain) (e : ℕ)
    → l.tail ≢ 0
    → l.tail ≢ e
    → push_back e l ≡ record l {
      prev = between_prev l.tail e (l.next l.tail) l.prev;
      next = between_next l.tail e (l.next l.tail) l.next;
      user = write l.user e 0;
      tail = e;
    }
unfolding push_back
push_back-between l e n m = rw (
  test_no l.tail 0 n,
  write_same l.prev e l.tail,
  write_other (write l.next e (l.next l.tail)) l.tail e e m,
  write_same l.next e (l.next l.tail),
)

push_front-between :
    (l : Chain) (e : ℕ)
    → l.head ≢ 0
    → l.head ≢ e
    → push_front e l ≡ record l {
      prev = between_prev (l.prev l.head) e l.head l.prev;
      next = between_next (l.prev l.head) e l.head l.next;
      user = write l.user e 0;
      head = e;
    }
unfolding push_front
push_front-between l e n m = rw (
  test_no l.head 0 n,
  write_same l.next e l.head,
  write_other (write l.prev e (l.prev l.head)) l.head e e m,
  write_same l.prev e (l.prev l.head),
)

insert_before-between :
    (l : Chain) (b e : ℕ)
    → b ≢ e
    → insert_before b e l ≡ record l {
      prev = between_prev (l.prev b) e b l.prev;
      next = between_next (l.prev b) e b l.next;
      user = write l.user e 0;
    }
unfolding insert_before
insert_before-between l b e m = rw (write_same l.prev e (l.prev b))

-- push_back() of a node that is not null and not in a List that holds a sequence leaves the List
-- with that sequence and the node behind it.
pub push_back_lem :
    (l : Chain) (e : ℕ) (xs : List ℕ)
    → e ≢ 0
    → Away e xs
    → Holds l xs
    → Holds (push_back e l) (xs ++ e ∷ [])
push_back_lem l e [] n a h =
    unfold push_back in
    rw (h.2) (((write_same l.next e e, write_same l.prev e e), (n, tt), (tt, tt)), refl, refl)
push_back_lem l e (x ∷ xs) n a h =
    let t = h.2 in
    let nil = last-Away x 0 xs h.0.1.0 h.0.1.1 in
    let other = last-Away x e xs a.0 a.1 in
    rw
      (
        push_back-between l e (λ z. nil (sym t ∙ z)) (λ z. other (sym t ∙ z)),
        t,
        next_last l.prev l.next x xs h.0,
      )
      (Ring-insert l.prev l.next e x xs n a h.0, h.1, sym (final-append (x ∷ xs) e []))

-- push_front() of a node that is not null and not in a List that holds a sequence leaves the
-- List with that sequence and the node before it.
pub push_front_lem :
    (l : Chain) (e : ℕ) (xs : List ℕ)
    → e ≢ 0
    → Away e xs
    → Holds l xs
    → Holds (push_front e l) (e ∷ xs)
push_front_lem l e [] n a h =
    unfold push_front in
    rw h.1 (((write_same l.next e e, write_same l.prev e e), (n, tt), (tt, tt)), refl, refl)
push_front_lem l e (x ∷ xs) n a h =
    let p = h.1 in
    subst (λ (k : Chain). Holds k (e ∷ x ∷ xs))
      (sym (push_front-between l e (λ z. h.0.1.0 (sym p ∙ z)) (λ z. a.0 (sym p ∙ z))))
      (
        subst
            (λ (b : ℕ).
              Ring (between_prev (l.prev b) e b l.prev) (between_next (l.prev b) e b l.next)
                (e ∷ x ∷ xs))
            (sym p)
            (subst
              (λ (t : ℕ). Ring (between_prev t e x l.prev) (between_next t e x l.next) (e ∷ x ∷ xs))
              (sym (prev_first l.prev l.next x xs h.0))
              (Ring-swap (between_prev (last x xs) e x l.prev) (between_next (last x xs) e x l.next)
                (x ∷ xs) (e ∷ []) (Ring-insert l.prev l.next e x xs n a h.0))),
        refl,
        h.2,
      )

-- The same pointers are between the nodes of a ring, wherever it starts.
Ring-between :
    (prev next : ℕ → ℕ) (e x : ℕ) (xs : List ℕ) (y : ℕ) (ys : List ℕ)
    → e ≢ 0
    → Away e (x ∷ xs ++ y ∷ ys)
    → Ring prev next (x ∷ xs ++ y ∷ ys)
    → Ring (between_prev (prev y) e y prev) (between_next (prev y) e y next) (x ∷ xs ++ e ∷ y ∷ ys)
Ring-between prev next e x xs y ys n a h =
    let r = Ring-swap prev next (x ∷ xs) (y ∷ ys) h in
    let b = Away-swap e (x ∷ xs) (y ∷ ys) a in
    let p = prev_first prev next y (ys ++ x ∷ xs) r in
    let inserted = Ring-insert prev next e y (ys ++ x ∷ xs) n b r in
    let at : ℕ → List ℕ → Type 0 =
      λ t zs. Ring (between_prev t e y prev) (between_next t e y next) zs in
    subst (λ (t : ℕ). at t (x ∷ xs ++ e ∷ y ∷ ys)) (sym p)
      (subst (at (last y (ys ++ x ∷ xs))) (append_assoc (x ∷ xs) (e ∷ []) (y ∷ ys)) (
        Ring-swap (between_prev (last y (ys ++ x ∷ xs)) e y prev)
          (between_next (last y (ys ++ x ∷ xs)) e y next) (y ∷ ys) (x ∷ xs ++ e ∷ [])
          (subst (at (last y (ys ++ x ∷ xs))) (append_assoc (y ∷ ys) (x ∷ xs) (e ∷ [])) inserted)))

-- insert() of a node that is not null and not in a List, before a node of it that is not the
-- first, leaves the List with the sequence that has the node there.
pub insert_before_lem :
    (l : Chain) (e x : ℕ) (xs : List ℕ) (y : ℕ) (ys : List ℕ)
    → e ≢ 0
    → Away e (x ∷ xs ++ y ∷ ys)
    → Holds l (x ∷ xs ++ y ∷ ys)
    → Holds (insert_before y e l) (x ∷ xs ++ e ∷ y ∷ ys)
insert_before_lem l e x xs y ys n a h =
    let b = Away-swap e (x ∷ xs) (y ∷ ys) a in
    subst (λ (k : Chain). Holds k (x ∷ xs ++ e ∷ y ∷ ys)) (sym (insert_before-between l y e b.0))
      (
        Ring-between l.prev l.next e x xs y ys n a h.0,
        h.1,
        h.2 ∙ final-append (x ∷ xs) y ys ∙ sym (final-append (x ∷ xs) e (y ∷ ys)),
      )
