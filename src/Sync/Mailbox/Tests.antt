-- ===== src/Sync/Mailbox/Tests.antt =====
-- Runs of a Mailbox, and the theorems about it at concrete histories.
use zth.Base.{ℕ, ◌≡◌, refl, true, List, [], ◌∷◌, ◌++◌, arith}
use zth.Sync.Queue.{unblock_first}
use zth.Sync.Future.{valid, set_value, set_exception, unuse}
use zth.Sync.Mailbox.{value, exception, put, take, take_finalize}
use zth.Sync.Mailbox.Claims.{kept_for_first}
use zth.Sync.Mailbox.Delivery.{
  System, Event, puts, takes, start, run, step, inside, delivered_in_order,
}

-- Two producers and one consumer, as in the unit test.
abbrev traffic : List (Event ℕ)
traffic =
    takes 1
    ∷ puts 2 (value 10)
    ∷ puts 3 (exception 5)
    ∷ takes 1
    ∷ puts 3 (exception 5)
    ∷ takes 1
    ∷ []

traffic_received : (run start traffic).received ≡ value 10 ∷ exception 5 ∷ []
unfolding run step put take take_finalize unblock_first set_value set_exception unuse
traffic_received = refl

delivered_in_order_example :
    (run start traffic).sent ≡ (run start traffic).received ++ inside (run start traffic).box.value
delivered_in_order_example = delivered_in_order traffic

-- Fiber 1 waits in take().
abbrev one_waits : System ℕ
one_waits = run start (takes 1 ∷ [])

kept_for_first_example :
    let s =
      run one_waits (puts 3 (value 7) ∷ takes 1 ∷ puts 3 (value 8) ∷ takes 2 ∷ takes 2 ∷ []) in
    (s.sent ≡ value 7 ∷ value 8 ∷ []) × (s.received ≡ value 7 ∷ []) × (valid s.box.value ≡ true)
unfolding run step take
kept_for_first_example =
    kept_for_first 1 3 3 (value 7) (value 8) one_waits (takes 2 ∷ takes 2 ∷ []) refl refl
      ((λ e. omega arith), ((λ e. omega arith), tt))
