-- ===== src/Common/Money/Scale.antt =====
-- A text of digits with no dot is read as whole units of money: `parseMoneyToMinorUnits` applied
-- to minor units that were printed by `toString` gives a hundred times the amount.
use event_sourced_core_banki.Base.{
  ℕ, ◌*◌, ◌≤◌, ◌≡◌, refl, true, false, [], ◌∷◌, ◌++◌, arith, Text, length, All, pos,
}
use event_sourced_core_banki.Common.Result.{ok}
use event_sourced_core_banki.Common.Money.{
  MoneyInput, is_space, trim_start, trim_end, trim, match_rest, match_unsigned, starts_with_minus,
  money_pattern, normalize_money_input, pad_end, show_nat, read_nat, read_from, to_string,
  parse_normalized, parse_money_to_minor_units,
}
use event_sourced_core_banki.Common.Money.Digits.{
  IsDigit, IsDigit-is_digit, show_nat-digits, show_nat-pos, read_nat-show_nat, read_from-append,
}
use event_sourced_core_banki.Common.Money.Canonical.{before_dot-All, after_dot-none}

trim_start-digits : (s : Text) → All IsDigit s → trim_start s ≡ s
unfolding trim_start is_space
trim_start-digits [] h = refl
trim_start-digits (c ∷ s) h = ground arith

trim_end-digits : (s : Text) → All IsDigit s → trim_end s ≡ s
unfolding trim_end is_space
trim_end-digits [] h = refl
trim_end-digits (c ∷ []) h = ground arith
trim_end-digits (c ∷ d ∷ s) h = rw (trim_end-digits (d ∷ s) h.1)

match_rest-All : (s : Text) → All IsDigit s → match_rest s ≡ true
unfolding match_rest
match_rest-All [] h = refl
match_rest-All (c ∷ s) h = rw (IsDigit-is_digit c h.0) (match_rest-All s h.1)

digits-money_pattern : (s : Text) → 1 ≤ length s → All IsDigit s → money_pattern s ≡ true
unfolding money_pattern match_unsigned
digits-money_pattern [] l h = absurd (omega arith)
digits-money_pattern (c ∷ s) l h = ground (arith, IsDigit-is_digit c h.0, match_rest-All s h.1)

digits-unsigned : (s : Text) → All IsDigit s → starts_with_minus s ≡ false
unfolding starts_with_minus
digits-unsigned [] h = refl
digits-unsigned (c ∷ s) h = ground arith

-- Digits alone are whole units.
read_nat-hundred : (s : Text) → read_nat (s ++ b'0' ∷ b'0' ∷ []) ≡ read_nat s * 100
unfolding read_nat read_from
read_nat-hundred s = rw (read_from-append 0 s (b'0' ∷ b'0' ∷ [])) (omega arith)

pub parse-digits :
    (s : Text)
    → 1 ≤ length s
    → All IsDigit s
    → parse_money_to_minor_units (MoneyInput.string s) ≡ ok (pos (read_nat s * 100))
unfolding parse_money_to_minor_units normalize_money_input parse_normalized trim pad_end
parse-digits s l h = rw (
  trim_start-digits s h,
  trim_end-digits s h,
  digits-money_pattern s l h,
  digits-unsigned s h,
  before_dot-All s h,
  after_dot-none s h,
  read_nat-hundred s,
)

-- Minor units that were printed by toString, as the transfer coordinator hands them to the
-- transaction registry, parse as a hundred times as many minor units.
pub parse-to_string :
    (n : ℕ)
    → parse_money_to_minor_units (MoneyInput.string (to_string (pos n))) ≡ ok (pos (n * 100))
unfolding to_string
parse-to_string n =
    rw (parse-digits (show_nat n) (show_nat-pos n) (show_nat-digits n), read_nat-show_nat n)
