-- ===== src/Poller/Aligned.antt =====
-- include/libzth/poller.h: the items of a PollerServer and the pollables that they stand for.
use zth.Base.{
  take, drop, ℕ, zero, suc, ◌≡◌, ◌≤◌, List, [], ◌∷◌, ◌++◌, length, get_elem?, arith, All,
}
use zth.Poller.{MetaItem, Server, back, all_but_back, fill_gap, zip, to_list}

module _ {A : Type 0} (init : ℕ → ℕ × A) where
  -- What the comment on m_pollItems asks: each item is that of the pollable in its place, and there
  -- may be fewer items.
  abbrev pub InStep : List MetaItem → List A → Type 0
  InStep ms [] = Unit
  InStep [] (a ∷ items) = ⊥
  InStep (m ∷ ms) (a ∷ items) = (a ≡ (init m.pollable).1) × InStep ms items

  -- A pollable and an item of it.
  abbrev pub Own : ℕ × A → Type 0
  Own (p, a) = a ≡ (init p).1

  abbrev pub IsAligned : Server A → Type 0
  IsAligned s = InStep s.metas s.items × All Own s.gone

  pub InStep-append :
      (ms ns : List MetaItem) (items : List A) → InStep ms items → InStep (ms ++ ns) items
  InStep-append ms ns [] h = tt
  InStep-append [] ns (a ∷ items) h = elim h [ ]
  InStep-append (m ∷ ms) ns (a ∷ items) h = (h.0, InStep-append ms ns items h.1)

  -- The last, and what is left of the others.
  InStep-back :
      (m : MetaItem) (ms : List MetaItem) (a : A) (items : List A)
      → length ms ≡ length items
      → InStep (m ∷ ms) (a ∷ items)
      → (back a items ≡ (init (back m ms).pollable).1)
        × InStep (all_but_back m ms) (all_but_back a items)
  InStep-back m [] a [] e h = (h.0, tt)
  InStep-back m [] a (b ∷ items) e h = absurd (omega (arith, e))
  InStep-back m (n ∷ ms) a [] e h = absurd (omega (arith, e))
  InStep-back m (n ∷ ms) a (b ∷ items) e h =
      let (p, q) = InStep-back n ms b items (omega (arith, e)) h.1 in (p, (h.0, q))

  pub InStep-fill_gap :
      (i : ℕ) (ms : List MetaItem) (items : List A)
      → length ms ≡ length items
      → InStep ms items
      → InStep (fill_gap i ms) (fill_gap i items)
  unfolding fill_gap
  InStep-fill_gap i [] [] e h = tt
  InStep-fill_gap i [] (a ∷ items) e h = absurd (omega (arith, e))
  InStep-fill_gap i (m ∷ ms) [] e h = absurd (omega (arith, e))
  InStep-fill_gap zero (m ∷ []) (a ∷ []) e h = tt
  InStep-fill_gap zero (m ∷ []) (a ∷ b ∷ items) e h = absurd (omega (arith, e))
  InStep-fill_gap zero (m ∷ n ∷ ms) (a ∷ []) e h = absurd (omega (arith, e))
  InStep-fill_gap zero (m ∷ n ∷ ms) (a ∷ b ∷ items) e h =
      InStep-back n ms b items (omega (arith, e)) h.1
  InStep-fill_gap (suc i) (m ∷ ms) (a ∷ items) e h =
      (h.0, InStep-fill_gap i ms items (omega (arith, e)) h.1)

  -- Items before the gap stay.
  pub InStep-past :
      (i : ℕ) (ms : List MetaItem) (items : List A)
      → length items ≤ i
      → InStep ms items
      → InStep (fill_gap i ms) items
  unfolding fill_gap
  InStep-past i ms [] l h = tt
  InStep-past zero [] (a ∷ items) l h = elim h [ ]
  InStep-past (suc i) [] (a ∷ items) l h = elim h [ ]
  InStep-past zero (m ∷ ms) (a ∷ items) l h = absurd (omega (arith, l))
  InStep-past (suc i) (m ∷ ms) (a ∷ items) l h =
      (h.0, InStep-past i ms items (omega (arith, l)) h.1)

  pub InStep-take :
      (n : ℕ) (ms : List MetaItem) (items : List A)
      → InStep ms items
      → InStep (take n ms) (take n items)
  InStep-take zero ms items h = tt
  InStep-take (suc n) [] [] h = tt
  InStep-take (suc n) [] (a ∷ items) h = elim h [ ]
  InStep-take (suc n) (m ∷ ms) [] h = tt
  InStep-take (suc n) (m ∷ ms) (a ∷ items) h = (h.0, InStep-take n ms items h.1)

  pub Own-zip : (ms : List MetaItem) (items : List A) → InStep ms items → All Own (zip ms items)
  unfolding zip
  Own-zip [] [] h = tt
  Own-zip [] (a ∷ items) h = elim h [ ]
  Own-zip (m ∷ ms) [] h = tt
  Own-zip (m ∷ ms) (a ∷ items) h = (h.0, Own-zip ms items h.1)

  pub Own-drop : (n : ℕ) (xs : List (ℕ × A)) → All Own xs → All Own (drop n xs)
  Own-drop zero xs h = h
  Own-drop (suc n) [] h = tt
  Own-drop (suc n) (x ∷ xs) h = Own-drop n xs h.1

  pub Own-at : (n : ℕ) (xs : List (ℕ × A)) → All Own xs → All Own (to_list (get_elem? xs n))
  Own-at n [] h = tt
  Own-at zero (x ∷ xs) h = (h.0, tt)
  Own-at (suc n) (x ∷ xs) h = Own-at n xs h.1
