-- ===== src/Sync/Api/Mailboxes.antt =====
-- include/libzth/sync.h: the C functions for a Mailbox, and the one that gets the value of a Future.
-- A pointer to where a value goes may be null: `wanted` is whether it is not.
use zth.Base.{ℕ, ◌⊎◌, inl, Bool, true, false, not, none, List, [], if◌then◌else◌}
use zth.Fiber.{einval, eagain}
use zth.Sync.Future.{Future, Access, access, empty, valid}
use zth.Sync.Future
use zth.Sync.Mailbox.{Mailbox, Taken, value, put, take, valid_for}
use zth.Sync.Api.{Handle, Made, create, destroy, with_object}

abbrev pub mailbox_init : Made → Handle (Mailbox ℕ) → ℕ × Handle (Mailbox ℕ)
mailbox_init how h =
    create how (record { value = empty; assigned = none; put_queue = []; take_queue = [] }) h

abbrev pub mailbox_destroy : Handle (Mailbox ℕ) → ℕ × Handle (Mailbox ℕ)
mailbox_destroy h = destroy h

-- can_take() of the current fiber.
abbrev pub mailbox_can_take : ℕ → Handle (Mailbox ℕ) → (ℕ ⊎ ℕ) × Handle (Mailbox ℕ)
mailbox_can_take f h = with_object (λ m. (if valid_for f m then 0 else eagain, m)) h

abbrev pub mailbox_can_put : Handle (Mailbox ℕ) → (ℕ ⊎ ℕ) × Handle (Mailbox ℕ)
mailbox_can_put h = with_object (λ m. (if not (valid m.value) then 0 else eagain, m)) h

-- Whether put() blocks, and the fibers that are woken.
abbrev pub mailbox_put : ℕ → ℕ → Handle (Mailbox ℕ) → (ℕ ⊎ Bool × List ℕ) × Handle (Mailbox ℕ)
mailbox_put f v h = with_object (λ m. let r = put f (value v) m in ((r.0, r.2), r.1)) h

abbrev pub mailbox_take :
    ℕ → Bool → Handle (Mailbox ℕ) → (ℕ ⊎ Taken ℕ × List ℕ) × Handle (Mailbox ℕ)
mailbox_take f false h = (inl einval, h)
mailbox_take f true h = with_object (λ m. let r = take f m in ((r.0, r.2), r.1)) h

-- Whether value() blocks in its wait(), and what it gives if it does not.
abbrev pub future_get : ℕ → Bool → Handle (Future ℕ) → (ℕ ⊎ Bool × Access ℕ) × Handle (Future ℕ)
future_get f false h = (inl einval, h)
future_get f true h = with_object (λ u. let r = Future.wait f u in ((r.0, access r.1.value), r.1)) h
