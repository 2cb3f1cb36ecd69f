-- ===== src/Poller.antt =====
-- include/libzth/poller.h: class PollerServer, the pollables of a worker and the items by which they
-- are polled. A pollable and a client are numbers, and 0 is no client. What init() of the subclass
-- makes of a pollable is an argument: its error, or 0, and the item. Running out of memory is left
-- out.
pub mod Aligned
pub mod History
pub mod Remove
pub mod Client
pub mod Restore
mod Tests
use zth.Base.{
  ℕ, zero, suc, ◌-◌, Bool, true, false, not, ◌&&◌, Option, none, some, List, [], ◌∷◌, ◌++◌, length,
  take, drop, leb, ltb, ◌==◌, if◌then◌else◌, get_elem?,
}
use zth.Fiber.{einval}

pub record MetaItem : Type 0 where
  pub pollable : ℕ
  pub client : ℕ

-- m_metaItems and m_pollItems, and the calls of deinit() so far.
pub record Server (A : Type 0) : Type 0 where
  pub metas : List MetaItem
  pub items : List A
  pub gone : List (ℕ × A)

abbrev pub esrch : ℕ
esrch = 3

module _ {A : Type 0} where
  -- The last element, and the others, of a list that is not empty.
  abbrev pub back : A → List A → A
  back x [] = x
  back x (y ∷ ys) = back y ys

  abbrev pub all_but_back : A → List A → List A
  all_but_back x [] = []
  all_but_back x (y ∷ ys) = x ∷ all_but_back y ys

  -- The element at an index is overwritten by the last, which is taken off.
  unfoldable pub fill_gap : ℕ → List A → List A
  fill_gap i [] = []
  fill_gap zero (x ∷ []) = []
  fill_gap zero (x ∷ y ∷ ys) = back y ys ∷ all_but_back y ys
  fill_gap (suc i) (x ∷ xs) = x ∷ fill_gap i xs

-- The pollables with their items, as they are given to deinit().
unfoldable pub zip : {A : Type 0} → List MetaItem → List A → List (ℕ × A)
zip [] items = []
zip (m ∷ ms) [] = []
zip (m ∷ ms) (a ∷ items) = (m.pollable, a) ∷ zip ms items

abbrev pub is_same : MetaItem → MetaItem → Bool
is_same m n = m.pollable == n.pollable && m.client == n.client

-- The search in remove(), from the end.
unfoldable pub last_index : MetaItem → List MetaItem → Option ℕ
last_index m [] = none
last_index m (x ∷ xs) = elim (last_index m xs) [
  | some i ↦ some (suc i)
  | none ↦ if is_same x m then some 0 else none
]

abbrev pub to_list : {A : Type 0} → Option A → List A
to_list none = []
to_list (some a) = a ∷ []

module _ {A : Type 0} where
  -- add(Pollable&, Client*), which also wakes the waiter.
  unfoldable pub add : MetaItem → Server A → Server A
  add m s = record s { metas = s.metas ++ m ∷ [] }

  -- The loop of migrateTo() that adds all pollables of another server; with enough memory, no add()
  -- fails, and nothing is rolled back.
  unfoldable pub add_all : List MetaItem → Server A → Server A
  unfolding add
  add_all [] s = s
  add_all (m ∷ ms) s = add_all ms (add m s)

  unfoldable pub clear : Server A → Server A
  unfolding zip
  clear s = record { metas = []; items = []; gone = s.gone ++ zip s.metas s.items }

  -- migrateTo() of s to t.
  unfoldable pub migrate_to : Server A → Server A → Server A × Server A
  unfolding add_all clear
  migrate_to s t = (clear s, add_all s.metas t)

  -- remove(size_t)
  unfoldable pub remove_last : ℕ → Server A → Server A
  unfolding clear zip
  remove_last last s =
      let kept = length s.metas - last in
      if leb (length s.metas) last then clear s else (record {
        metas = take kept s.metas;
        items = take kept s.items;
        gone = s.gone ++ drop kept (zip s.metas s.items);
      })

  -- What remove() does with the one that it found.
  unfoldable pub remove_at : ℕ → Server A → Server A
  unfolding fill_gap remove_last zip
  remove_at i s =
      if ltb i (length s.metas - 1)
      then (record {
        metas = fill_gap i s.metas;
        items = if ltb i (length s.items) then fill_gap i s.items else s.items;
        gone = s.gone ++ to_list (get_elem? (zip s.metas s.items) i);
      })
      else remove_last 1 s

  -- remove(Pollable&, Client*)
  unfoldable pub remove : MetaItem → Server A → ℕ × Server A
  unfolding last_index remove_at
  remove m s = elim (last_index m s.metas) [ none ↦ (esrch, s) | some i ↦ (0, remove_at i s) ]

  module _ (init : ℕ → ℕ × A) where
    -- The loop of mirror() over what has no item yet: the error, and the new items.
    unfoldable pub init_all : List MetaItem → ℕ × List A
    init_all [] = (0, [])
    init_all (m ∷ ms) =
        let (res, item) = init m.pollable in
        let (later, items) = init_all ms in if res == 0 then (later, item ∷ items) else (res, [])

    unfoldable pub mirror : Server A → ℕ × Server A
    unfolding init_all
    mirror s =
        let (res, more) = init_all (drop (length s.items) s.metas) in
        (res, record s { items = s.items ++ more })

    -- poll(), with the result of doPoll() for these items.
    unfoldable pub poll : (List A → ℕ) → Server A → ℕ × Server A
    unfolding mirror
    poll do_poll s =
        let (res, s') = mirror s in
        if not (res == 0)
        then (res, s')
        else if length s'.metas == 0
        then (einval, s')
        else (do_poll s'.items, s')
