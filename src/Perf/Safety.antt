-- ===== src/Perf/Safety.antt =====
-- src/perf.cpp: how the writing of events can end, whichever calls of fprintf() fail.
use zth.Base.{
  ℕ, ◌<◌, ◌^◌, sym, subst, Bool, true, false, Bool-cases, inl, inr, List, [], ◌∷◌, ◌++◌, Option,
  none, some, if◌then◌else◌, if_true, if_false, length, All, arith,
}
use zth.Time.Stamp.{Timestamp}
use zth.Perf
use zth.Perf.{
  Text, Line, Event, Vcd, Wrote, wrote, failed, fault, chain, settled, with_found, unprintable,
  is_gone, print_vcd, print_vcdd, with_id, write_chunks, write_event, write_events, process_events,
  vcd_id_release,
}
use zth.Perf.Ids.{Good, vcd_id-Good, vcd_id_release-Good}

-- The identifiers are still those of their fibers, and nothing went wrong but a write.
abbrev pub Safe : Wrote → Type 0
Safe (wrote v) = Good v.ids
Safe (failed res v) = Good v.ids
Safe fault = ⊥

-- The number of the fiber is of 64 bits, and a message is not empty.
abbrev pub Fine : Event → Type 0
Fine Perf.nothing = Unit
Fine (Perf.fiber_name fiber str) = fiber < 2 ^ 64
Fine (Perf.fiber_state t fiber state) = fiber < 2 ^ 64
Fine (Perf.message t fiber none) = Unit
Fine (Perf.message t fiber (some s)) = (fiber < 2 ^ 64) × (0 < length s)

chain-Safe :
    (r : Wrote) (next : Vcd → Wrote)
    → Safe r
    → ((v : Vcd) → Good v.ids → Safe (next v))
    → Safe (chain r next)
chain-Safe (wrote v) next s h = h v s
chain-Safe (failed res v) next s h = s
chain-Safe fault next s h = s

settled-Safe :
    (r : Option ℕ) (before after : Vcd)
    → Good before.ids
    → Good after.ids
    → Safe (settled r before after)
settled-Safe (some res) before after g h = g
settled-Safe none before after g h = h

with_id-Safe :
    (fiber : ℕ) (next : Text → Vcd → Wrote) (v : Vcd)
    → fiber < 2 ^ 64
    → Good v.ids
    → ((id : Text) (w : Vcd) → Good w.ids → Safe (next id w))
    → Safe (with_id fiber next v)
unfolding with_id
with_id-Safe fiber next v h g k =
    let (id, ids, e, i, f) = vcd_id-Good fiber v.ids h g in
    subst (λ r. Safe (with_found r next v)) (sym e) (k id (record v { ids = ids }) f)

forget-Good :
    (fiber : ℕ) (gone : Bool) (w : Vcd)
    → Good w.ids
    → Good (if gone then (record w { ids = vcd_id_release fiber w.ids }) else w).ids
forget-Good fiber true w g = vcd_id_release-Good fiber w.ids g
forget-Good fiber false w g = g

module _ (refused : ℕ → Option ℕ) where
  print_vcd-Safe : (l : Line) (v : Vcd) → Good v.ids → Safe (print_vcd refused l v)
  unfolding print_vcd
  print_vcd-Safe l v g = settled-Safe (refused v.calls) _ _ g g

  print_vcdd-Safe : (l : Line) (v : Vcd) → Good v.ids → Safe (print_vcdd refused l v)
  unfolding print_vcdd
  print_vcdd-Safe l v g = settled-Safe (refused v.calls) _ _ g g

  write_chunks-Safe :
      (fiber : ℕ) (chunk s : Text) (v : Vcd)
      → fiber < 2 ^ 64
      → 0 < length s
      → Good v.ids
      → Safe (write_chunks refused fiber chunk s v)
  unfolding write_chunks
  write_chunks-Safe fiber chunk [] v h n g = absurd (omega (arith, n))
  write_chunks-Safe fiber chunk (c ∷ []) v h n g =
      with_id-Safe fiber _ v h g (λ id w k. print_vcdd-Safe _ w k)
  write_chunks-Safe fiber chunk (c ∷ d ∷ cs) v h n g = elim (Bool-cases (unprintable c)) [
    | inl e ↦ subst Safe (sym (if_true _ _ e)) (
        chain-Safe _ _ (print_vcdd-Safe _ v g)
          (λ w k. write_chunks-Safe fiber [] (d ∷ cs) w h (omega arith) k))
    | inr e ↦
        subst Safe (sym (if_false _ _ e))
          (write_chunks-Safe fiber (chunk ++ c ∷ []) (d ∷ cs) v h (omega arith) g)
  ]

  write_event-Safe :
      (start : Timestamp) (e : Event) (v : Vcd)
      → Fine e
      → Good v.ids
      → Safe (write_event refused start e v)
  unfolding write_event
  write_event-Safe start Perf.nothing v f g = g
  write_event-Safe start (Perf.fiber_name fiber (some str)) v f g =
      with_id-Safe fiber _ v f g (λ id w k. print_vcd-Safe _ w k)
  write_event-Safe start (Perf.fiber_name fiber none) v f g =
      with_id-Safe fiber _ v f g (λ id w k. print_vcd-Safe _ w k)
  write_event-Safe start (Perf.fiber_state t fiber state) v f g =
      chain-Safe _ _ (with_id-Safe fiber _ v f g (λ id w k. print_vcdd-Safe _ w k))
        (λ w k. forget-Good fiber (is_gone state) w k)
  write_event-Safe start (Perf.message t fiber none) v f g = g
  write_event-Safe start (Perf.message t fiber (some s)) v f g =
      chain-Safe _ _ (print_vcdd-Safe _ v g) (λ w k. write_chunks-Safe fiber [] s w f.0 f.1 k)

  pub write_events-Safe :
      (start : Timestamp) (es : List Event) (v : Vcd)
      → All Fine es
      → Good v.ids
      → Safe (write_events refused start es v)
  unfolding write_events
  write_events-Safe start [] v f g = g
  write_events-Safe start (e ∷ es) v f g =
      chain-Safe _ _ (write_event-Safe start e v f.0 g) (λ w k. write_events-Safe start es w f.1 k)
