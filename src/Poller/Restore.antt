-- ===== src/Poller/Restore.antt =====
-- src/poller.cpp: the registrations in the server around poll() of a PollerClient.
use zth.Base.{
  ℕ, ◌+◌, ◌≡◌, ◌≢◌, ◌⊎◌, ◌≤◌, inl, inr, refl, sym, ap, ◌∙◌, Bool, true, false, Bool-cases, Option,
  none, some, List, [], ◌∷◌, ◌++◌, length, ◌==◌, if◌then◌else◌, get_elem?, arith,
}
use zth.Base.Int.{ℤ}
use zth.Poller.{MetaItem, Server, is_same, add, remove, mirror, poll}
use zth.Poller.Remove.{one, count, remove_takes}
use zth.Poller.Client.{
  Client, idle, received, Next, completes, suspends, waits_until, after_try, event, mine, register,
  unregister, deliver, poll_server, goes_on, set_wait, error_of, poll_end, poll_client,
}

count-append : (n m : MetaItem) (xs : List MetaItem) → count n (xs ++ m ∷ []) ≡ count n xs + one m n
unfolding count
count-append n m [] = omega arith
count-append n m (x ∷ xs) = omega (arith, count-append n m xs)

count-same : (m n : MetaItem) (xs : List MetaItem) → is_same m n ≡ true → count m xs ≡ count n xs
unfolding count
count-same m n [] h = refl
count-same m n (x ∷ xs) h = ground (arith, h, count-same m n xs h)

received-pollables :
    (me : ℕ) (m : Option MetaItem) (any : Bool) (c : Client)
    → (received me m any c).pollables ≡ c.pollables
unfolding received event
received-pollables me none any c = refl
received-pollables me (some m) any c = ground arith

deliver-pollables :
    (me : ℕ) (metas : List MetaItem) (es : List (ℕ × Bool)) (c : Client)
    → (deliver me metas es c).pollables ≡ c.pollables
unfolding deliver
deliver-pollables me metas [] c = refl
deliver-pollables me metas ((i, any) ∷ es) c =
    deliver-pollables me metas es (received me (get_elem? metas i) any c)
    ∙ received-pollables me (get_elem? metas i) any c

set_wait-pollables : (next : Next) (c : Client) → (set_wait next c).pollables ≡ c.pollables
set_wait-pollables completes c = refl
set_wait-pollables suspends c = refl
set_wait-pollables (waits_until ms) c = refl

error_of-ne-zero : (res : ℕ) (ps : List ℕ) → (error_of res ps ≢ 0) ⊎ (ps ≢ [])
error_of-ne-zero res [] = inl (ground arith)
error_of-ne-zero res (p ∷ ps) = inr (λ e. cc e)

if_both {ℓ κ} :
    {A : Type ℓ} (P : A → Type κ) (b : Bool) (x y : A) → P x → P y → P (if b then x else y)
if_both P true x y p q = p
if_both P false x y p q = q

-- How often the pair is among the pollables of the client.
abbrev pub share : ℕ → MetaItem → List ℕ → ℕ
share me n [] = 0
share me n (p ∷ ps) = one (mine me p) n + share me n ps

module _ {A : Type 0} (me : ℕ) (n : MetaItem) where
  count-register :
      (ps : List ℕ) (s : Server A)
      → count n (register me ps s).metas ≡ count n s.metas + share me n ps
  unfolding register add
  count-register [] s = omega arith
  count-register (p ∷ ps) s =
      omega (arith, count-register ps (add (mine me p) s), count-append n (mine me p) s.metas)

  remove_own :
      (p : ℕ) (s : Server A)
      → one (mine me p) n ≤ count n s.metas
      → count n (remove (mine me p) s).1.metas + one (mine me p) n ≡ count n s.metas
  remove_own p s h = elim (Bool-cases (is_same (mine me p) n)) [
    | inl e ↦ ground (arith, h, e, remove_takes (mine me p) n s, count-same (mine me p) n s.metas e)
    | inr e ↦ ground (arith, h, e, remove_takes (mine me p) n s)
  ]

  count-unregister :
      (ps : List ℕ) (s : Server A)
      → share me n ps ≤ count n s.metas
      → count n (unregister me ps s).metas + share me n ps ≡ count n s.metas
  unfolding unregister
  count-unregister [] s h = omega arith
  count-unregister (p ∷ ps) s h =
      let left = count-unregister ps s (omega (arith, h)) in
      omega (arith, h, left, remove_own p (unregister me ps s) (omega (arith, h, left)))

  poll-metas :
      (init : ℕ → ℕ × A) (do_poll : List A → ℕ) (s : Server A)
      → (poll init do_poll s).1.metas ≡ s.metas
  unfolding poll mirror
  poll-metas init do_poll s = ground arith

  poll_server-keeps :
      (init : ℕ → ℕ × A) (do_poll : List A → ℕ) (events : List A → List (ℕ × Bool)) (c : Client)
      (s : Server A)
      → let (res, (d, t)) = poll_server init me do_poll events c s in
        (d.pollables ≡ c.pollables) × (t.metas ≡ s.metas)
  unfolding poll_server
  poll_server-keeps init do_poll events c s = (
    ground (
      arith,
      deliver-pollables me (poll init do_poll s).1.metas (events (poll init do_poll s).1.items) c,
    ),
    poll-metas init do_poll s,
  )

  -- The end of poll(), for a client that has its pollables registered.
  end_restores :
      (res : ℕ) (c : Client) (s : Server A) (k : ℕ)
      → count n s.metas ≡ k + share me n c.pollables
      → let (error, (d, t)) = poll_end me res c s in
        (count n t.metas ≡ k) × (d.pollables ≡ c.pollables) × ((error ≢ 0) ⊎ (d.result ≢ []))
  unfolding poll_end
  end_restores res c s k h = (
    omega (arith, h, count-unregister c.pollables s (omega (arith, h))),
    refl,
    error_of-ne-zero res c.result,
  )

  module _ (init : ℕ → ℕ × A) (do_poll : List A → ℕ) (events : List A → List (ℕ × Bool)) where
    -- While poll() is blocked, others leave the client's pollables and the number of registrations.
    abbrev pub Keeps : (Next → Client → Server A → Client × Server A) → Type 0
    Keeps blocked =
        (next : Next) (c : Client) (s : Server A)
        → ((blocked next c s).0.pollables ≡ c.pollables)
          × (count n (blocked next c s).1.metas ≡ count n s.metas)

    blocked_or_not :
        (blocked : Next → Client → Server A → Client × Server A)
        → Keeps blocked
        → (next : Next) (c : Client) (s : Server A)
        → let (d, t) = after_try blocked next c s in
          (d.pollables ≡ c.pollables) × (count n t.metas ≡ count n s.metas)
    blocked_or_not blocked h completes c s = (refl, refl)
    blocked_or_not blocked h suspends c s = h suspends (set_wait suspends c) s
    blocked_or_not blocked h (waits_until ms) c s =
        h (waits_until ms) (set_wait (waits_until ms) c) s

    -- The pair is registered as often as before, and the error is set if there is no result.
    abbrev pub Restored : Client → Server A → ℕ × (Client × Server A) → Type 0
    Restored c s r =
        (count n r.1.1.metas ≡ count n s.metas)
        × (r.1.0.pollables ≡ c.pollables)
        × ((r.0 ≢ 0) ⊎ (r.1.0.result ≢ []))

    tried_restores :
        (blocked : Next → Client → Server A → Client × Server A) (timeout : ℤ) (c : Client)
        (s : Server A)
        → Keeps blocked
        → let (res, (d, t)) = poll_server init me do_poll events c (register me c.pollables s) in
          let (e, u) = after_try blocked (goes_on res timeout d.result) d t in
          Restored c s (poll_end me res e u)
    tried_restores blocked timeout c s h =
        let first = poll_server init me do_poll events c (register me c.pollables s) in
        let next = goes_on first.0 timeout first.1.0.result in
        let (p, q) = poll_server-keeps init do_poll events c (register me c.pollables s) in
        let (i, j) = blocked_or_not blocked h next first.1.0 first.1.1 in
        let e = after_try blocked next first.1.0 first.1.1 in
        let k : count n e.1.metas ≡ count n s.metas + share me n e.0.pollables =
          j
          ∙ ap (count n) q
          ∙ count-register c.pollables s
          ∙ ap (λ ps. count n s.metas + share me n ps) (sym (i ∙ p)) in
        let (l, m, o) = end_restores first.0 e.0 e.1 (count n s.metas) k in (l, m ∙ i ∙ p, o)

    -- poll() of a PollerClient leaves each pair of a pollable and a client registered with the
    -- server as often as before, and its own pollables as they were, whatever the first try and
    -- the server give and whether it blocks or not, and sets an error if there is no result;
    -- this is so if what happens while it is blocked leaves its pollables and keeps how often
    -- that pair is registered.
    pub poll_client-restores :
        (blocked : Next → Client → Server A → Client × Server A) (timeout : ℤ) (c : Client)
        (s : Server A)
        → Keeps blocked
        → Restored c s (poll_client init me do_poll events blocked timeout c s)
    unfolding poll_client
    poll_client-restores blocked timeout c s h =
        if_both (Restored c s) (length c.pollables == 0) _ _ (refl, refl, inl (ground arith))
          (tried_restores blocked timeout (record c { result = []; wait = idle }) s h)
