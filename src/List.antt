-- ===== src/List.antt =====
-- include/libzth/list.h: class List, a cyclic doubly linked list of nodes that their owners keep.
-- Nodes are numbers and 0 is the null pointer; the fields of all nodes are functions. The code's
-- zth_assert()s are conditions on the caller. Iterators are the loops that use them.
pub mod Cycle
pub mod Ring
pub mod Refine
pub mod Remove
pub mod Walk
pub mod History
mod Tests
use zth.Base.{
  ℕ, zero, suc, ◌+◌, Bool, true, false, ◌&&◌, not, Option, none, some, if◌then◌else◌, ◌==◌,
}
use mathlib.Core.Option

abbrev pub write : (ℕ → ℕ) → ℕ → ℕ → ℕ → ℕ
write f p v q = if p == q then v else f q

-- The members prev, next and user of each node, and m_head and m_tail.
pub record Chain : Type 0 where
  pub prev : ℕ → ℕ
  pub next : ℕ → ℕ
  pub user : ℕ → ℕ
  pub head : ℕ
  pub tail : ℕ

unfoldable pub push_back : ℕ → Chain → Chain
push_back e l =
    let user = write l.user e 0 in
    if l.tail == 0
    then (record {
      prev = write l.prev e e;
      next = write l.next e e;
      user = user;
      head = e;
      tail = e;
    })
    else let next = write l.next e (l.next l.tail) in
      let prev = write l.prev e l.tail in
      let next' = write next (prev e) e in
      record l { prev = write prev (next' e) e; next = next'; user = user; tail = e }

unfoldable pub push_front : ℕ → Chain → Chain
push_front e l =
    let user = write l.user e 0 in
    if l.head == 0
    then (record {
      prev = write l.prev e e;
      next = write l.next e e;
      user = user;
      head = e;
      tail = e;
    })
    else let next = write l.next e l.head in
      let prev = write l.prev e (l.prev l.head) in
      let prev' = write prev (next e) e in
      record l { prev = prev'; next = write next (prev' e) e; user = user; head = e }

-- The two pointers past a node that leaves the list: elem->prev->next and elem->next->prev.
abbrev pub bypass : ℕ → Chain → Chain
bypass e l =
    let next = write l.next (l.prev e) (l.next e) in
    record l { prev = write l.prev (next e) (l.prev e); next = next }

-- What the code does to a node that left, with Config::EnableAssert.
abbrev pub forget : Bool → ℕ → Chain → Chain
forget clears e l =
    if clears then record l { prev = write l.prev e 0; next = write l.next e 0 } else l

unfoldable pub pop_back : Bool → Chain → Chain
pop_back clears l = forget clears l.tail (
    if l.tail == l.head
    then record l { head = 0; tail = 0 }
    else bypass l.tail (record l { tail = l.prev l.tail }))

unfoldable pub pop_front : Bool → Chain → Chain
pop_front clears l = forget clears l.head (
    if l.tail == l.head
    then record l { head = 0; tail = 0 }
    else bypass l.head (record l { head = l.next l.head }))

-- erase(elem_type&)
unfoldable pub erase : Bool → ℕ → Chain → Chain
unfolding pop_back pop_front
erase clears e l =
    if l.head == e
    then pop_front clears l
    else if l.tail == e
    then pop_back clears l
    else forget clears e (bypass e l)

unfoldable pub rotate : ℕ → Chain → Chain
rotate e l = record l { head = e; tail = l.prev e }

-- insert() before the node that an iterator stands at, which is neither at its begin nor at its end.
unfoldable pub insert_before : ℕ → ℕ → Chain → Chain
insert_before before e l =
    let next = write l.next e before in
    let prev = write l.prev e (l.prev before) in
    record l { prev = write prev before e; next = write next (prev e) e; user = write l.user e 0 }

-- Iterator<cyclic>: m_start and m_current.
pub record Iterator : Type 0 where
  pub start : ℕ
  pub current : ℕ

abbrev pub at_begin : Iterator → Bool
at_begin i = i.current == 0 && not (i.start == 0)

abbrev pub at_end : Iterator → Bool
at_end i = i.current == i.start

abbrev pub get : Iterator → ℕ
get i = if at_begin i then i.start else i.current

-- operator==
abbrev pub equals : Iterator → Iterator → Bool
equals i j = if at_end i then at_end j else if at_end j then false else get i == get j

abbrev pub advance : Chain → Iterator → Iterator
advance l i = record i { current = if at_begin i then l.next i.start else l.next i.current }

abbrev pub begin : Chain → Iterator
begin l = record { start = l.head; current = 0 }

abbrev pub end : Chain → Iterator
end l = record { start = l.head; current = l.head }

-- The loop of size() from an iterator, with fuel for its rounds; `none` means that it ran out.
unfoldable pub size_from : ℕ → Chain → Iterator → Option ℕ
size_from zero l i = none
size_from (suc fuel) l i =
    let rest = size_from fuel l (advance l i) in
    if equals i (end l) then some 0 else Option.map suc rest

unfoldable pub contains_from : ℕ → Chain → ℕ → Iterator → Option Bool
contains_from zero l e i = none
contains_from (suc fuel) l e i =
    let rest = contains_from fuel l e (advance l i) in
    if equals i (end l) then some false else if get i == e then some true else rest

abbrev pub size : ℕ → Chain → Option ℕ
size fuel l = size_from fuel l (begin l)

abbrev pub contains : ℕ → Chain → ℕ → Option Bool
contains fuel l e = contains_from fuel l e (begin l)

-- prev() of an iterator.
abbrev pub retreat : Chain → Iterator → Iterator
retreat l i = record i { current = if l.prev i.current == i.start then 0 else l.prev i.current }

abbrev pub is_empty : Chain → Bool
is_empty l = l.head == 0
