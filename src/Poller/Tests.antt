-- ===== src/Poller/Tests.antt =====
-- Runs of a PollerServer whose items are the numbers of the pollables and a hundred.
use zth.Base.{ℕ, ◌+◌, ◌≡◌, refl, List, [], ◌∷◌, arith, All, map, inl, true}
use zth.Poller.{MetaItem, Server, add, remove, mirror, poll, init_all}
use zth.Poller.Aligned.{Own}
use zth.Poller.History.{Call, adds, removes, mirrors, run, own_item, mirror-run}
use zth.Poller.Remove.{late, remove_misplaces}
use zth.Poller.Client.{
  Client, Next, idle, poll_client, poll_server, register, deliver, received, event, poll_end,
}
use zth.Poller.Restore.{Restored, poll_client-restores}
use zth.Base.Int.{pos, negsuc}

abbrev item_of : ℕ → ℕ × ℕ
item_of p = (0, p + 100)

abbrev fresh : Server ℕ
fresh = record { metas = []; items = []; gone = [] }

abbrev of_client : ℕ → MetaItem
of_client p = record { pollable = p; client = 9 }

-- The first of three goes once all have an item, and a fourth comes.
abbrev calls : List Call
calls =
    adds (of_client 1)
    ∷ adds (of_client 2)
    ∷ adds (of_client 3)
    ∷ mirrors
    ∷ removes (of_client 1)
    ∷ adds (of_client 4)
    ∷ []

mirror-run_example :
    ((mirror item_of (run item_of calls fresh)).1.items
      ≡ map (own_item item_of) (run item_of calls fresh).metas)
    × All (Own item_of) (run item_of calls fresh).gone
unfolding mirror remove add
mirror-run_example =
    mirror-run item_of calls fresh (tt, tt) (tt, (tt, (tt, (tt, (inl refl, (tt, tt)))))) refl

ran : (run item_of calls fresh).metas ≡ of_client 3 ∷ of_client 2 ∷ of_client 4 ∷ []
unfolding mirror remove add
ran = refl

remove_misplaces_example :
    let t =
      (mirror item_of (remove (record { pollable = 1; client = 0 }) (late item_of 1 2 3 [])).1).1 in
    (t.metas ≡ record { pollable = 3; client = 0 } ∷ record { pollable = 2; client = 0 } ∷ [])
    × (t.items ≡ 102 ∷ 102 ∷ [])
remove_misplaces_example = remove_misplaces item_of 1 2 3 [] (omega arith) (omega arith) refl

-- A client whose second pollable has an event at the first try.
abbrev poller : Client
poller = record { pollables = 11 ∷ 12 ∷ []; result = []; wait = idle }

abbrev waiting : Client
waiting = record { pollables = 2 ∷ []; result = []; wait = idle }

abbrev stays : Next → Client → Server ℕ → Client × Server ℕ
stays next c s = (c, s)

polled :
    (poll_client item_of 2
      (λ (items : List ℕ). 0)
      (λ (items : List ℕ). (1, true) ∷ [])
      stays
      (pos 0)
      poller
      fresh).1.0.result
    ≡ 12 ∷ []
unfolding poll_client poll_server register add poll mirror init_all deliver received event poll_end
polled = refl

-- The pair of the client and pollable 2 is there already.
poll_client-restores_example :
    Restored 9
      (of_client 2)
      item_of
      (λ (items : List ℕ). 11)
      (λ (items : List ℕ). [])
      waiting
      (run item_of calls fresh)
      (poll_client item_of 9
        (λ (items : List ℕ). 11)
        (λ (items : List ℕ). [])
        stays
        (negsuc 0)
        waiting
        (run item_of calls fresh))
poll_client-restores_example =
    poll_client-restores 9 (of_client 2) item_of (λ (items : List ℕ). 11) (λ (items : List ℕ). [])
      stays (negsuc 0) waiting (run item_of calls fresh) (λ next c s. (refl, refl))
