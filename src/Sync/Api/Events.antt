-- ===== src/Sync/Api/Events.antt =====
-- include/libzth/sync.h: the C functions for a Signal, a Future and a Gate.
use zth.Base.{ℕ, ◌⊎◌, inl, inr, Bool, true, false, List, [], if◌then◌else◌}
use zth.Base.Int.{pos}
use zth.Fiber.{eagain}
use zth.Sync.Signal.{Signal, Pause}
use zth.Sync.Signal
use zth.Sync.Future.{Future, empty, valid}
use zth.Sync.Future
use zth.Sync.Gate.{Gate, pass}
use zth.Sync.Gate
use zth.Sync.Api.{ebusy, Handle, Made, create, destroy, with_object}

abbrev pub cond_init : Made → Handle Signal → ℕ × Handle Signal
cond_init how h = create how (record { signalled = pos 0; queue = [] }) h

abbrev pub cond_destroy : Handle Signal → ℕ × Handle Signal
cond_destroy h = destroy h

-- signal() with its default arguments.
abbrev pub cond_signal : Handle Signal → (ℕ ⊎ List ℕ) × Handle Signal
cond_signal h = with_object (λ s. let r = Signal.signal true false s in (r.1, r.0)) h

abbrev pub cond_broadcast : Handle Signal → (ℕ ⊎ List ℕ) × Handle Signal
cond_broadcast h = with_object (λ s. let r = Signal.signal_all false s in (r.1, r.0)) h

abbrev pub cond_wait : ℕ → Handle Signal → (ℕ ⊎ Pause) × Handle Signal
cond_wait f h = with_object (Signal.wait f) h

abbrev pub future_init : Made → Handle (Future ℕ) → ℕ × Handle (Future ℕ)
future_init how h = create how (record { value = empty; queue = [] }) h

abbrev pub future_destroy : Handle (Future ℕ) → ℕ × Handle (Future ℕ)
future_destroy h = destroy h

abbrev pub future_valid : Handle (Future ℕ) → (ℕ ⊎ ℕ) × Handle (Future ℕ)
future_valid h = with_object (λ u. (if valid u.value then 0 else eagain, u)) h

abbrev pub set_once : ℕ → Future ℕ → (ℕ ⊎ List ℕ) × Future ℕ
set_once value u =
    if valid u.value then (inl eagain, u) else (let r = Future.set value u in (inr r.1, r.0))

abbrev pub future_set : ℕ → Handle (Future ℕ) → (ℕ ⊎ (ℕ ⊎ List ℕ)) × Handle (Future ℕ)
future_set value h = with_object (set_once value) h

abbrev pub future_wait : ℕ → Handle (Future ℕ) → (ℕ ⊎ Bool) × Handle (Future ℕ)
future_wait f h = with_object (Future.wait f) h

abbrev pub gate_init : Made → ℕ → Handle Gate → ℕ × Handle Gate
gate_init how count h = create how (record { count = count; current = 0; queue = [] }) h

abbrev pub gate_destroy : Handle Gate → ℕ × Handle Gate
gate_destroy h = destroy h

abbrev pub gate_wait : ℕ → Handle Gate → (ℕ ⊎ Bool × List ℕ) × Handle Gate
gate_wait f h = with_object (λ g. let r = Gate.wait f g in ((r.0, r.2), r.1)) h

-- The code for the result of Gate::pass(), and the fibers that are woken.
abbrev pub gate_pass : Handle Gate → (ℕ ⊎ ℕ × List ℕ) × Handle Gate
gate_pass h = with_object (λ g. let r = pass g in ((if r.0 then 0 else ebusy, r.2), r.1)) h
