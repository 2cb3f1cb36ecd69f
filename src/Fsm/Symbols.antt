-- ===== src/Fsm/Symbols.antt =====
-- include/libzth/fsm14.h: class Symbol, a C string or null. A text is the list of its characters,
-- without the zero at its end.
use zth.Base.{
  ℕ, ◌≡◌, refl, ap, Bool, true, false, Option, none, some, List, [], ◌∷◌, arith, ◌==◌,
  if◌then◌else◌,
}

abbrev pub Symbol : Type 0
Symbol = Option (List ℕ)

abbrev pub is_valid : Symbol → Bool
is_valid none = false
is_valid (some s) = true

-- The loop of constexpr_eq().
unfoldable pub text_eq : List ℕ → List ℕ → Bool
text_eq [] [] = true
text_eq [] (b ∷ bs) = false
text_eq (a ∷ as') [] = false
text_eq (a ∷ as') (b ∷ bs) = if a == b then text_eq as' bs else false

-- constexpr_eq(), and operator==.
unfoldable pub equals : Symbol → Symbol → Bool
unfolding text_eq
equals none none = true
equals none (some b) = false
equals (some a) none = false
equals (some a) (some b) = text_eq a b

text_eq-eq : (a b : List ℕ) → text_eq a b ≡ true → a ≡ b
unfolding text_eq
text_eq-eq [] [] h = refl
text_eq-eq [] (b ∷ bs) h = cc
text_eq-eq (a ∷ as') [] h = cc
text_eq-eq (a ∷ as') (b ∷ bs) h = ground (arith, text_eq-eq as' bs)

pub equals-eq : (a b : Symbol) → equals a b ≡ true → a ≡ b
unfolding equals
equals-eq none none h = refl
equals-eq none (some b) h = cc
equals-eq (some a) none h = cc
equals-eq (some a) (some b) h = ap some (text_eq-eq a b h)

text_eq_refl : (a : List ℕ) → text_eq a a ≡ true
unfolding text_eq
text_eq_refl [] = refl
text_eq_refl (a ∷ as') = ground (arith, text_eq_refl as')

pub equals_refl : (a : Symbol) → equals a a ≡ true
unfolding equals
equals_refl none = refl
equals_refl (some a) = text_eq_refl a
