-- ===== src/SortedList/Tests.antt =====
-- Runs of a SortedList of nodes with keys, two nodes to a key, and the theorems about it there.
use zth.Base.{ℕ, ◌+◌, ◌^◌, ◌/◌, ◌≤◌, ◌≡◌, refl, Bool, List, [], ◌∷◌, ltb, arith, inl, inr}
use zth.Sync.Queue.{contains}
use zth.SortedList.{Tree, leaf, node, level, SortedList, insert, find}
use zth.SortedList.Order.{nodes, IsOrder}
use zth.SortedList.Insert.{insert_sorted}
use zth.SortedList.Head.{Represents}
use zth.SortedList.History.{Call, puts, removes, run, make_all, run-Represents}
use zth.SortedList.Levels.{IsBalanced}
use zth.SortedList.Depth.{level-run}

abbrev key : ℕ → ℕ
key n = n / 2

abbrev before : ℕ → ℕ → Bool
before m n = ltb (key m) (key n)

before-IsOrder : IsOrder before
before-IsOrder = record {
  asym = λ m n h. ground (arith, h);
  between = λ m n o h. ground (arith, h);
}

-- The nodes 4, 5 and 8: 4 and 5 have the same key.
abbrev tree : Tree
tree = node 1 leaf 4 (node 1 leaf 8 leaf)

abbrev two : SortedList
two = record { tree = tree; head = 4; size = 2 }

two-Represents : Represents before two (4 ∷ 8 ∷ [])
unfolding nodes
two-Represents = (refl, refl, refl, ((refl, tt), (tt, tt)))

-- A third node makes the tree grow by a level.
grown :
    insert before 5 two
    ≡ record { tree = node 2 (node 1 leaf 4 leaf) 5 (node 1 leaf 8 leaf); head = 4; size = 3 }
unfolding insert
grown = refl

tree-IsBalanced : IsBalanced tree
tree-IsBalanced = (refl, inr refl, omega arith, tt, (refl, inl refl, omega arith, tt, tt))

-- Two nodes go in and one goes out.
abbrev calls : List Call
calls = puts 5 ∷ puts 1 ∷ removes 4 ∷ []

run-Represents_example :
    Represents before (run before calls two) (make_all before calls (4 ∷ 8 ∷ []))
    × ((x : ℕ)
        → find before x (run before calls two).tree
          ≡ contains x (make_all before calls (4 ∷ 8 ∷ [])))
unfolding insert_sorted contains
run-Represents_example =
    run-Represents before before-IsOrder calls two (4 ∷ 8 ∷ [])
      (
        (omega arith, (omega arith, tt)),
        ((omega arith, (omega arith, (omega arith, tt))), (refl, tt)),
      )
      two-Represents

level-run_example :
    IsBalanced (run before calls two).tree
    × (2 ^ level (run before calls two).tree ≤ (run before calls two).size + 1)
unfolding insert_sorted contains
level-run_example =
    level-run before before-IsOrder calls two (4 ∷ 8 ∷ [])
      (
        (omega arith, (omega arith, tt)),
        ((omega arith, (omega arith, (omega arith, tt))), (refl, tt)),
      )
      two-Represents tree-IsBalanced
