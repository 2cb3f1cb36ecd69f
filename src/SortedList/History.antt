-- ===== src/SortedList/History.antt =====
-- include/libzth/list.h: a SortedList through any series of insert() and erase(), against a sorted
-- sequence.
use zth.Base.{ℕ, ◌≡◌, sym, subst, ap, ◌∙◌, Bool, true, List, [], ◌∷◌}
use zth.Sync.Queue
use zth.Sync.Queue.{contains}
use zth.List.Cycle.{Away}
use zth.SortedList.{SortedList, insert, erase, find}
use zth.SortedList.Order.{IsOrder, IsSorted}
use zth.SortedList.Insert.{insert_sorted}
use zth.SortedList.Head.{Represents}
use zth.SortedList.Refine.{insert-Represents, erase-Represents, find_lem}

pub data Call : Type 0 where
  puts removes : ℕ → Call

module _ (comp : ℕ → ℕ → Bool) where
  abbrev pub apply : Call → SortedList → SortedList
  apply (puts x) s = insert comp x s
  apply (removes x) s = erase comp x s

  abbrev pub run : List Call → SortedList → SortedList
  run [] s = s
  run (c ∷ cs) s = run cs (apply c s)

  -- The calls on a sorted sequence.
  abbrev pub make : Call → List ℕ → List ℕ
  make (puts x) xs = insert_sorted comp x xs
  make (removes x) xs = Queue.erase x xs

  abbrev pub make_all : List Call → List ℕ → List ℕ
  make_all [] xs = xs
  make_all (c ∷ cs) xs = make_all cs (make c xs)

  -- A node is in the list when it is erased, and not when it is inserted.
  abbrev pub Fits : Call → List ℕ → Type 0
  Fits (puts x) xs = Away x xs
  Fits (removes x) xs = contains x xs ≡ true

  abbrev pub AllFit : List Call → List ℕ → Type 0
  AllFit [] xs = Unit
  AllFit (c ∷ cs) xs = Fits c xs × AllFit cs (make c xs)

  module _ (order : IsOrder comp) where
    apply-Represents :
        (c : Call) (s : SortedList) (xs : List ℕ)
        → Fits c xs
        → Represents comp s xs
        → Represents comp (apply c s) (make c xs)
    apply-Represents (puts x) s xs f r = insert-Represents comp order x s xs f r
    apply-Represents (removes x) s xs f r = erase-Represents comp order x s xs f r

    find-Represents :
        (s : SortedList) (xs : List ℕ) (x : ℕ)
        → Represents comp s xs
        → find comp x s.tree ≡ contains x xs
    find-Represents s xs x (e, h, n, o) =
        find_lem comp order x s.tree (subst (IsSorted comp) (sym e) o) ∙ ap (contains x) e

    -- After any series of insert() and erase() on a SortedList that represents a sorted
    -- sequence, the nodes of the tree from left to right, m_head and m_size are those of the
    -- sorted sequence that the series makes, and contains() tells for every node whether it is
    -- there; this is so if a node that is inserted is not there, a node that is erased is, and
    -- m_comp is an order.
    pub run-Represents :
        (cs : List Call) (s : SortedList) (xs : List ℕ)
        → AllFit cs xs
        → Represents comp s xs
        → Represents comp (run cs s) (make_all cs xs)
          × ((x : ℕ) → find comp x (run cs s).tree ≡ contains x (make_all cs xs))
    run-Represents [] s xs f r = (r, λ x. find-Represents s xs x r)
    run-Represents (c ∷ cs) s xs f r =
        run-Represents cs (apply c s) (make c xs) f.1 (apply-Represents c s xs f.0 r)
