-- ===== src/SmallVector.antt =====
-- include/libzth/util.h: class small_vector, whose buffer holds either an array of elements or a
-- std::vector, which is the sequence of its elements. A slot of the array holds an element that was
-- constructed there, or none. `none` as a result is a fault: the buffer is read as the other of the
-- two, an element is constructed over another, or one is read or destroyed that is not there.
pub mod Storage
pub mod Refine
pub mod Resize
pub mod History
pub mod Own
mod Tests
use zth.Base.{
  ℕ, zero, suc, ◌+◌, ◌-◌, Bool, true, false, ◌&&◌, Option, none, some, List, [], ◌∷◌, ◌++◌, length,
  get_elem?, leb, ltb, ◌==◌, if◌then◌else◌, ◌>>=◌, take, replicate, all_but_last,
}

pub data Buffer (A : Type 0) : Type 0 where
  array : (ℕ → Option A) → Buffer A
  vector : List A → Buffer A

-- m_size and m_buffer.
pub record SmallVector (A : Type 0) : Type 0 where
  pub m_size : ℕ
  pub buffer : Buffer A

module _ {A : Type 0} where
  abbrev pub update : (ℕ → Option A) → ℕ → Option A → ℕ → Option A
  update slots i a j = if i == j then a else slots j

  -- The constructor.
  abbrev pub fresh : SmallVector A
  fresh = record { m_size = 0; buffer = array (λ _. none) }

  -- resize() of a std::vector.
  abbrev pub resized : ℕ → A → List A → List A
  resized count x xs = take count xs ++ replicate (count - length xs) x

module _ {A : Type 0} (prealloc : ℕ) where
  abbrev pub is_small : SmallVector A → Bool
  is_small s = leb s.m_size prealloc

  -- array()
  abbrev pub slots_of : SmallVector A → Option (ℕ → Option A)
  slots_of s =
      if is_small s then elim s.buffer [ array slots ↦ some slots | vector xs ↦ none ] else none

  -- vector()
  abbrev pub vector_of : SmallVector A → Option (List A)
  vector_of s =
      if is_small s then none else elim s.buffer [ array slots ↦ none | vector xs ↦ some xs ]

  -- What an operation of the vector leaves in the buffer.
  abbrev pub with_vector : (List A → List A) → SmallVector A → Option (SmallVector A)
  with_vector f s = do xs ← vector_of s; some (record s { buffer = vector (f xs) })

  -- An element in a slot of the array.
  unfoldable pub construct : ℕ → A → SmallVector A → Option (SmallVector A)
  construct i a s = do
    slots ← slots_of s
    if ltb i prealloc
        then elim (slots i) [
          | some b ↦ none
          | none ↦ some (record s { buffer = array (update slots i (some a)) })
        ]
        else none

  unfoldable pub destroy : ℕ → SmallVector A → Option (SmallVector A)
  destroy i s = do
    slots ← slots_of s
    elim (slots i) [
      | some b ↦ some (record s { buffer = array (update slots i none) })
      | none ↦ none
    ]

  unfoldable pub size : SmallVector A → Option ℕ
  size s = if is_small s then some s.m_size else (do xs ← vector_of s; some (length xs))

  -- operator[]
  unfoldable pub at : ℕ → SmallVector A → Option A
  at i s =
      if is_small s then (do slots ← slots_of s; slots i) else (do xs ← vector_of s; get_elem? xs i)

  -- The loop of make_vector(), for the rounds that are left: the elements that are moved.
  unfoldable pub move_out : ℕ → ℕ → SmallVector A → Option (List A)
  move_out zero i s = some []
  move_out (suc rounds) i s = do
    a ← at i s
    s' ← destroy i s
    xs ← move_out rounds (i + 1) s'
    some (a ∷ xs)

  unfoldable pub make_vector : SmallVector A → Option (SmallVector A)
  make_vector s =
      if is_small s
      then (do
        xs ← move_out s.m_size 0 s
        some (record { m_size = prealloc + 1; buffer = vector xs }))
      else some s

  unfoldable pub reserve : ℕ → SmallVector A → Option (SmallVector A)
  reserve new_cap s =
      if leb s.m_size prealloc && leb new_cap prealloc
      then some s
      else (do s' ← if is_small s then make_vector s else some s; with_vector (λ xs. xs) s')

  unfoldable pub push_back : A → SmallVector A → Option (SmallVector A)
  push_back a s = do
    n ← size s
    s' ← reserve (n + 1) s
    if ltb s'.m_size prealloc
        then (do s'' ← construct s'.m_size a s'; some (record s'' { m_size = s''.m_size + 1 }))
        else with_vector (λ xs. xs ++ a ∷ []) s'

  -- push_back() of the element at an index, by a reference to its place in the array, while the
  -- elements are there.
  unfoldable pub push_back_own : ℕ → SmallVector A → Option (SmallVector A)
  push_back_own i s = do
    slots ← slots_of s
    n ← size s
    s' ← reserve (n + 1) s
    still ← slots_of s'
    a ← still i
    s'' ← construct s'.m_size a s'
    some (record s'' { m_size = s''.m_size + 1 })

  unfoldable pub pop_back : SmallVector A → Option (SmallVector A)
  pop_back s =
      if is_small s
      then destroy (s.m_size - 1) (record s { m_size = s.m_size - 1 })
      else with_vector all_but_last s

  -- The two loops of resize(), for the rounds that are left.
  unfoldable pub shrink : ℕ → SmallVector A → Option (SmallVector A)
  shrink zero s = some s
  shrink (suc rounds) s = do
    s' ← destroy (s.m_size - 1) (record s { m_size = s.m_size - 1 })
    shrink rounds s'

  unfoldable pub grow : ℕ → A → SmallVector A → Option (SmallVector A)
  grow zero x s = some s
  grow (suc rounds) x s = do
    s' ← construct s.m_size x s
    grow rounds x (record s' { m_size = s'.m_size + 1 })

  unfoldable pub resize : ℕ → A → SmallVector A → Option (SmallVector A)
  resize count x s =
      if is_small s
      then (do
        s' ← shrink (s.m_size - count) s
        if leb count prealloc
            then grow (count - s'.m_size) x s'
            else (do s'' ← make_vector s'; with_vector (resized count x) s''))
      else with_vector (resized count x) s

  -- clear(), clear_and_release() and the destructor leave no element.
  unfoldable pub clear : A → SmallVector A → Option (SmallVector A)
  clear x s = if is_small s then resize 0 x s else with_vector (λ _. []) s
