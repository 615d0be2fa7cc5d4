-- ===== src/Common/Money/Decimal.antt =====
-- `toString` and `BigInt(...)` on whole numbers: decimal digits, most significant first.
use event_sourced_core_banki.Base.{
  ℕ, zero, suc, ◌+◌, ◌-◌, ◌*◌, ◌/◌, ◌%◌, Bool, true, false, ◌&&◌, [], ◌∷◌, ◌++◌, ltb, leb, Text, ℤ,
  pos, negsuc, ◌-ℤ◌, eqb, if◌then◌else◌,
}

unfoldable pub is_digit : ℕ → Bool
is_digit c = leb 48 c && leb c 57

-- The fuel bounds the number of digits; `show_nat` gives more than enough.
unfoldable pub show_fuel : ℕ → ℕ → Text
show_fuel zero n = []
show_fuel (suc f) n = elim (ltb n 10) [
  | true ↦ (48 + n) ∷ []
  | false ↦ show_fuel f (n / 10) ++ (48 + n % 10) ∷ []
]

unfoldable pub show_nat : ℕ → Text
unfolding show_fuel
show_nat n = show_fuel (suc n) n

-- `bigint.toString()`
unfoldable pub to_string : ℤ → Text
unfolding show_nat
to_string (pos n) = show_nat n
to_string (negsuc n) = b'-' ∷ show_nat (suc n)

unfoldable pub read_from : ℕ → Text → ℕ
read_from acc [] = acc
read_from acc (c ∷ s) = read_from (acc * 10 + (c - 48)) s

-- `BigInt(s)` for a text of digits
unfoldable pub read_nat : Text → ℕ
unfolding read_from
read_nat s = read_from 0 s

-- `BigInt(s)` for a text that `to_string` made
unfoldable pub read_int : Text → ℤ
unfolding read_nat
read_int [] = pos 0
read_int (c ∷ s) = if eqb c b'-' then pos 0 -ℤ pos (read_nat s) else pos (read_nat (c ∷ s))
