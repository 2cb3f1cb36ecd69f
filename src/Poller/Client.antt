-- ===== src/Poller/Client.antt =====
-- src/poller.cpp: class PollerClient, which polls its pollables by the server of the worker. What
-- the fiber waits for is m_wait. A null timeout is none. Running out of memory is left out.
use zth.Base.{
  ℕ, zero, suc, Bool, not, ◌&&◌, Option, none, some, List, [], ◌∷◌, ◌++◌, length, get_elem?, ◌==◌,
  if◌then◌else◌,
}
use zth.Base.Int.{ℤ, pos, negsuc}
use zth.Fiber.{einval, eagain}
use zth.Poller.{MetaItem, Server, fill_gap, add, remove, mirror, poll}

-- m_wait: without a fiber, with the fiber that is suspended, or with a timeout.
pub data Wait : Type 0 where
  idle : Wait
  handed_off : Wait
  timed : Wait

-- m_pollables, m_result and m_wait.
pub record Client : Type 0 where
  pub pollables : List ℕ
  pub result : List ℕ
  pub wait : Wait

-- add(), which has memory.
unfoldable pub add_pollable : ℕ → Client → Client
add_pollable p c = record c { pollables = c.pollables ++ p ∷ [] }

abbrev pub index_of : ℕ → List ℕ → Option ℕ
index_of p [] = none
index_of p (x ∷ xs) = elim (index_of p xs) [
  | some i ↦ some (suc i)
  | none ↦ if x == p then some 0 else none
]

-- remove(), which searches from the end.
unfoldable pub remove_pollable : ℕ → Client → ℕ × Client
remove_pollable p c = elim (index_of p c.pollables) [
  | none ↦ (eagain, c)
  | some i ↦ (0, record c { pollables = fill_gap i c.pollables })
]

-- Whom event() wakes.
pub data Woken : Type 0 where
  nobody : Woken
  suspended_fiber : Woken
  waiting_fiber : Woken

unfoldable pub event : ℕ → Client → Woken × Client
event p c = (
  elim c.wait [ timed ↦ waiting_fiber | handed_off ↦ suspended_fiber | idle ↦ nobody ],
  record c { result = c.result ++ p ∷ [] },
)

-- How poll() goes on after its first try.
pub data Next : Type 0 where
  completes : Next
  suspends : Next
  waits_until : ℕ → Next

-- The branches after the first try.
abbrev pub goes_on : ℕ → ℤ → List ℕ → Next
goes_on res timeout (p ∷ ps) = completes
goes_on res timeout [] = if not (res == 0) && not (res == eagain) then completes else elim timeout [
  | pos zero ↦ completes
  | negsuc n ↦ suspends
  | pos (suc n) ↦ waits_until (suc n)
]

abbrev pub set_wait : Next → Client → Client
set_wait completes c = c
set_wait suspends c = record c { wait = handed_off }
set_wait (waits_until ms) c = record c { wait = timed }

abbrev pub error_of : ℕ → List ℕ → ℕ
error_of res [] = if res == 0 then eagain else res
error_of res (p ∷ ps) = res

module _ (me : ℕ) where
  abbrev pub mine : ℕ → MetaItem
  mine p = record { pollable = p; client = me }

  -- PollerServer::event() for one of the items.
  unfoldable pub received : Option MetaItem → Bool → Client → Client
  received none any c = c
  received (some m) any c = if any && m.client == me then (event m.pollable c).1 else c

  -- PollerServer::event() for the events of doPoll(): the index and whether there are any.
  unfoldable pub deliver : List MetaItem → List (ℕ × Bool) → Client → Client
  deliver metas [] c = c
  deliver metas ((i, any) ∷ es) c = deliver metas es (received (get_elem? metas i) any c)

module _ {A : Type 0} (me : ℕ) where
  -- The two loops of poll().
  unfoldable pub register : List ℕ → Server A → Server A
  register [] s = s
  register (p ∷ ps) s = register ps (add (mine me p) s)

  unfoldable pub unregister : List ℕ → Server A → Server A
  unregister [] s = s
  unregister (p ∷ ps) s = (remove (mine me p) (unregister ps s)).1

  -- The rest of poll(): the errno, the client and the server.
  unfoldable pub poll_end : ℕ → Client → Server A → ℕ × (Client × Server A)
  poll_end res c s = let s' = unregister c.pollables s in (error_of res c.result, (c, s'))

-- What is there when poll() goes on.
abbrev pub after_try :
    {A : Type 0}
    → (Next → Client → Server A → Client × Server A)
    → Next
    → Client
    → Server A
    → Client × Server A
after_try blocked completes c s = (c, s)
after_try blocked suspends c s = blocked suspends (set_wait suspends c) s
after_try blocked (waits_until ms) c s = blocked (waits_until ms) (set_wait (waits_until ms) c) s

module _ {A : Type 0} (init : ℕ → ℕ × A) (me : ℕ) where
  -- poll() of the server: doPoll() is reached if mirror() succeeds and there is a pollable.
  unfoldable pub poll_server :
      (List A → ℕ) → (List A → List (ℕ × Bool)) → Client → Server A → ℕ × (Client × Server A)
  poll_server do_poll events c s =
      let (res, s') = poll init do_poll s in
      let reached = (mirror init s).0 == 0 in
      (res, (if reached then deliver me s'.metas (events s'.items) c else c, s'))

  -- poll(), where `blocked` is what happens until the fiber goes on.
  unfoldable pub poll_client :
      (List A → ℕ)
      → (List A → List (ℕ × Bool))
      → (Next → Client → Server A → Client × Server A)
      → ℤ
      → Client
      → Server A
      → ℕ × (Client × Server A)
  poll_client do_poll events blocked timeout c s =
      let cleared = record c { result = [] } in
      let tried = record cleared { wait = idle } in
      let (res, (c', s')) = poll_server do_poll events tried (register me c.pollables s) in
      let next = goes_on res timeout c'.result in
      let (d, t) = after_try blocked next c' s' in
      if length c.pollables == 0 then (einval, (cleared, s)) else poll_end me res d t
