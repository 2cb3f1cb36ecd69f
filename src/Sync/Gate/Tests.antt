-- ===== src/Sync/Gate/Tests.antt =====
-- The theorem about a Gate at a concrete one, as in the unit test.
use zth.Base.{◌≡◌, refl, false, [], ◌∷◌}
use zth.Sync.Gate.{Gate, wait}
use zth.Sync.Gate.Barrier.{wait_each, opens_for_last}

abbrev gate : Gate
gate = record { count = 4; current = 0; queue = [] }

opens_for_last_example :
    (wait_each (1 ∷ 2 ∷ 3 ∷ []) (gate, [])
      ≡ (record gate { current = 3; queue = 1 ∷ 2 ∷ 3 ∷ [] }, []))
    × (wait 0 (wait_each (1 ∷ 2 ∷ 3 ∷ []) (gate, [])).0 ≡ (false, gate, 1 ∷ 2 ∷ 3 ∷ []))
opens_for_last_example = opens_for_last (1 ∷ 2 ∷ 3 ∷ []) 0 gate refl refl refl
