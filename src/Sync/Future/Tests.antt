-- ===== src/Sync/Future/Tests.antt =====
-- The theorems about a Future at a concrete one.
use zth.Base.{ℕ, ◌≡◌, refl, false, [], ◌∷◌}
use zth.Sync.Future.{Future, empty, returns, access, set, wait}
use zth.Sync.Future.Waiting.{wait_each, set_delivers}

abbrev future : Future ℕ
future = record { value = empty; queue = [] }

set_delivers_example :
    let r = set 7 (wait_each (1 ∷ 2 ∷ []) future) in
    (r.1 ≡ 1 ∷ 2 ∷ [])
    × (r.0.queue ≡ [])
    × (access r.0.value ≡ returns 7)
    × (wait 3 r.0 ≡ (false, r.0))
set_delivers_example = set_delivers (1 ∷ 2 ∷ []) 3 7 future refl
