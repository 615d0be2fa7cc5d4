-- ===== src/Base/Texts.antt =====
-- JavaScript strings as lists of code units, with `===` and the literals of the source.
use Prim.Native.Nat.{ℕ}
use Prim.Native.Char.{code}
use Prim.Native.String.{String}
use mathlib.Core.Path.{◌≡◌, refl}
use mathlib.Core.Logic.{◌↔◌}
use mathlib.Core.Bool.{Bool, true, false, ◌&&◌}
use mathlib.Core.List.{List, [], ◌∷◌}
use native.Mathlib.Omega.{arith}
use event_sourced_core_banki.Base.Tests.{eqb}

abbrev pub Text : Type 0
Text = List ℕ

-- A literal of the source. It stays shut in proofs, where its letters do not matter.
unfoldable pub text : String → Text
text String.[] = []
text (String.◌∷◌ c s) = code c ∷ text s

-- `===` on strings
infix 50 ◌==◌
unfoldable pub ◌==◌ : Text → Text → Bool
[] == [] = true
[] == (b ∷ bs) = false
(a ∷ as') == [] = false
(a ∷ as') == (b ∷ bs) = eqb a b && as' == bs

pub eq_iff : (s t : Text) → ((s == t) ≡ true) ↔ (s ≡ t)
unfolding ◌==◌
eq_iff [] [] = ground arith
eq_iff [] (b ∷ bs) = ground arith
eq_iff (a ∷ as') [] = ground arith
eq_iff (a ∷ as') (b ∷ bs) = ground (arith, eq_iff as' bs)

pub eq_refl : (s : Text) → (s == s) ≡ true
eq_refl s = (eq_iff s s).1 refl

pub eq-false : (s t : Text) → ((s == t) ≡ true → ⊥) → (s == t) ≡ false
eq-false s t h = ground (arith, h)

-- A string that is empty is false as a condition.
abbrev pub is_truthy : Text → Bool
is_truthy [] = false
is_truthy (c ∷ s) = true
