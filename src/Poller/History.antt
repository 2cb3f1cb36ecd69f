-- ===== src/Poller/History.antt =====
-- include/libzth/poller.h: a PollerServer through any series of calls.
use zth.Base.{
  drop, ℕ, ◌-◌, ◌≡◌, ◌⊎◌, ◌≤◌, inl, inr, refl, ap, ◌∙◌, Bool-cases, Option, none, some, List, [],
  ◌∷◌, ◌++◌, length, leb, ltb, ◌==◌, if◌then◌else◌, get_elem?, arith, All, All-append, map,
}
use zth.Poller.{
  MetaItem, Server, fill_gap, zip, last_index, to_list, add, add_all, migrate_to, clear,
  remove_last, remove_at, remove, init_all, mirror, esrch,
}
use zth.Poller.Aligned.{
  InStep, Own, IsAligned, InStep-append, InStep-fill_gap, InStep-past, InStep-take, Own-zip,
  Own-drop, Own-at,
}

-- A call, where `mirrors` is what poll() starts with. With migrateTo(), a server gives all of its
-- pollables to another, which receives them.
pub data Call : Type 0 where
  adds removes : MetaItem → Call
  removes_last : ℕ → Call
  receives : List MetaItem → Call
  clears mirrors migrates : Call

module _ {A : Type 0} where
  -- The one to be removed has no item yet, or all have.
  abbrev pub Settled : Option ℕ → Server A → Type 0
  Settled none s = Unit
  Settled (some i) s = (length s.metas ≡ length s.items) ⊎ (length s.items ≤ i)

  abbrev pub Fits : Call → Server A → Type 0
  Fits (removes m) s = Settled (last_index m s.metas) s
  Fits c s = Unit

module _ {A : Type 0} (init : ℕ → ℕ × A) where
  abbrev pub apply : Call → Server A → Server A
  apply (adds m) s = add m s
  apply (removes m) s = (remove m s).1
  apply (removes_last n) s = remove_last n s
  apply (receives ms) s = (migrate_to (record { metas = ms; items = []; gone = [] }) s).1
  apply clears s = clear s
  apply migrates s = (migrate_to s (record { metas = []; items = []; gone = [] })).0
  apply mirrors s = (mirror init s).1

  abbrev pub run : List Call → Server A → Server A
  run [] s = s
  run (c ∷ cs) s = run cs (apply c s)

  abbrev pub AllFit : List Call → Server A → Type 0
  AllFit [] s = Unit
  AllFit (c ∷ cs) s = Fits c s × AllFit cs (apply c s)

  clear-IsAligned : (s : Server A) → IsAligned init s → IsAligned init (clear s)
  unfolding clear
  clear-IsAligned s (h, g) =
      (tt, All-append (Own init) s.gone (zip s.metas s.items) g (Own-zip init s.metas s.items h))

  add_all-IsAligned :
      (ms : List MetaItem) (s : Server A) → IsAligned init s → IsAligned init (add_all ms s)
  unfolding add_all
  add_all-IsAligned [] s h = h
  add_all-IsAligned (m ∷ ms) s (h, g) =
      add_all-IsAligned ms (add m s)
        (unfold add in (InStep-append init s.metas (m ∷ []) s.items h, g))

  remove_last-IsAligned :
      (n : ℕ) (s : Server A) → IsAligned init s → IsAligned init (remove_last n s)
  unfolding remove_last
  remove_last-IsAligned n s (h, g) = elim (Bool-cases (leb (length s.metas) n)) [
    | inl e ↦ rw e (clear-IsAligned s (h, g))
    | inr e ↦ rw e (
      InStep-take init (length s.metas - n) s.metas s.items h,
      All-append (Own init) s.gone (drop (length s.metas - n) (zip s.metas s.items)) g (
          Own-drop init (length s.metas - n) (zip s.metas s.items)
            (Own-zip init s.metas s.items h)),
    )
  ]

  filled :
      (i : ℕ) (s : Server A)
      → Settled (some i) s
      → InStep init s.metas s.items
      → InStep init
          (fill_gap i s.metas)
          (if ltb i (length s.items) then fill_gap i s.items else s.items)
  filled i s f h = elim (Bool-cases (ltb i (length s.items))) [
    | inl e ↦ rw e (InStep-fill_gap init i s.metas s.items (ground (arith, f, e)) h)
    | inr e ↦ rw e (InStep-past init i s.metas s.items (ground (arith, e)) h)
  ]

  remove_at-IsAligned :
      (i : ℕ) (s : Server A)
      → Settled (some i) s
      → IsAligned init s
      → IsAligned init (remove_at i s)
  unfolding remove_at
  remove_at-IsAligned i s f (h, g) = elim (Bool-cases (ltb i (length s.metas - 1))) [
    | inl e ↦ rw e (
      filled i s f h,
      All-append (Own init) s.gone (to_list (get_elem? (zip s.metas s.items) i)) g
          (Own-at init i (zip s.metas s.items) (Own-zip init s.metas s.items h)),
    )
    | inr e ↦ rw e (remove_last-IsAligned 1 s (h, g))
  ]

  remove_found :
      (found : Option ℕ) (s : Server A)
      → Settled found s
      → IsAligned init s
      → IsAligned init
          (elim found as (λ _. ℕ × Server A) [ none ↦ (esrch, s) | some i ↦ (0, remove_at i s) ]).1
  remove_found none s f h = h
  remove_found (some i) s f h = remove_at-IsAligned i s f h

  init_all-InStep : (ms : List MetaItem) → InStep init ms (init_all init ms).1
  unfolding init_all
  init_all-InStep [] = tt
  init_all-InStep (m ∷ ms) = elim (Bool-cases ((init m.pollable).0 == 0)) [
    | inl e ↦ rw e (refl, init_all-InStep ms)
    | inr e ↦ rw e tt
  ]

  InStep-more :
      (ms : List MetaItem) (items more : List A)
      → InStep init ms items
      → InStep init (drop (length items) ms) more
      → InStep init ms (items ++ more)
  InStep-more ms [] more h k = k
  InStep-more [] (a ∷ items) more h k = elim h [ ]
  InStep-more (m ∷ ms) (a ∷ items) more h k = (h.0, InStep-more ms items more h.1 k)

  mirror-IsAligned : (s : Server A) → IsAligned init s → IsAligned init (mirror init s).1
  unfolding mirror
  mirror-IsAligned s (h, g) = (
    InStep-more s.metas s.items (init_all init (drop (length s.items) s.metas)).1 h
        (init_all-InStep (drop (length s.items) s.metas)),
    g,
  )

  apply-IsAligned :
      (c : Call) (s : Server A) → Fits c s → IsAligned init s → IsAligned init (apply c s)
  apply-IsAligned (adds m) s f (h, g) =
      unfold add in (InStep-append init s.metas (m ∷ []) s.items h, g)
  apply-IsAligned (removes m) s f h = unfold remove in remove_found (last_index m s.metas) s f h
  apply-IsAligned (removes_last n) s f h = remove_last-IsAligned n s h
  apply-IsAligned (receives ms) s f h = unfold migrate_to in add_all-IsAligned ms s h
  apply-IsAligned clears s f h = clear-IsAligned s h
  apply-IsAligned migrates s f h = unfold migrate_to in clear-IsAligned s h
  apply-IsAligned mirrors s f h = mirror-IsAligned s h

  run-IsAligned :
      (cs : List Call) (s : Server A) → AllFit cs s → IsAligned init s → IsAligned init (run cs s)
  run-IsAligned [] s f h = h
  run-IsAligned (c ∷ cs) s f h = run-IsAligned cs (apply c s) f.1 (apply-IsAligned c s f.0 h)

  abbrev pub own_item : MetaItem → A
  own_item m = (init m.pollable).1

  init_all-length :
      (ms : List MetaItem) → (init_all init ms).0 ≡ 0 → (init_all init ms).1 ≡ map own_item ms
  unfolding init_all
  init_all-length [] h = refl
  init_all-length (m ∷ ms) h = elim (Bool-cases ((init m.pollable).0 == 0)) [
    | inl e ↦ rw e (ap (λ (ys : List A). own_item m ∷ ys) (init_all-length ms (rw e at h)))
    | inr e ↦ absurd (ground (arith, e, rw e at h))
  ]

  all_items :
      (ms : List MetaItem) (items : List A)
      → InStep init ms items
      → (init_all init (drop (length items) ms)).0 ≡ 0
      → items ++ (init_all init (drop (length items) ms)).1 ≡ map own_item ms
  all_items ms [] h e = init_all-length ms e
  all_items [] (a ∷ items) h e = elim h [ ]
  all_items (m ∷ ms) (a ∷ items) h e =
      ap (λ (b : A). b ∷ (items ++ (init_all init (drop (length items) ms)).1)) h.0
      ∙ ap (λ (ys : List A). own_item m ∷ ys) (all_items ms items h.1 e)

  -- After any series of add(), remove(), clear(), mirror(), and migrateTo() from or to another
  -- server, on a PollerServer whose items are those of the pollables in their places, a mirror()
  -- without an error gives every pollable the item that init() makes of it, in its place, and
  -- every deinit() so far was of a pollable with its own item; this is so if remove() of a
  -- pollable that has an item is called only when all have one.
  pub mirror-run :
      (cs : List Call) (s : Server A)
      → IsAligned init s
      → AllFit cs s
      → (mirror init (run cs s)).0 ≡ 0
      → ((mirror init (run cs s)).1.items ≡ map own_item (run cs s).metas)
        × All (Own init) (run cs s).gone
  unfolding mirror
  mirror-run cs s h f e =
      let (a, g) = run-IsAligned cs s f h in (all_items (run cs s).metas (run cs s).items a e, g)
