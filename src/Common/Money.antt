-- ===== src/Common/Money.antt =====
-- common/money/money.ts: amounts of money between decimal texts and whole minor units (cents).
-- A JavaScript number reaches this code only to be printed, so `MoneyInput.number s` stands for
-- the number that prints as `s`. `MoneyInput.string s` is the string itself.
mod Decimal
mod Canonical
pub mod Digits
pub mod RoundTrip
mod Tests
pub mod Scale
use event_sourced_core_banki.Base.{
  ℕ, ◌+◌, ◌-◌, Bool, true, false, ◌&&◌, ◌||◌, List, [], ◌∷◌, ◌++◌, length, take, drop, replicate,
  eqb, leb, if◌then◌else◌, Text, text, ℤ, pos, ◌-ℤ◌, ltb_ℤ,
}
use event_sourced_core_banki.Common.Result.{Result, ok, err, plain, ◌>>=◌}
unfoldable pub use Decimal.{is_digit, show_nat, read_nat, read_from, show_fuel, to_string, read_int}

pub data MoneyInput : Type 0 where
  number string : Text → MoneyInput

-- `String(value)`
abbrev pub input_text : MoneyInput → Text
input_text (MoneyInput.number s) = s
input_text (MoneyInput.string s) = s

-- JavaScript's white space and line terminators, which `trim` removes
unfoldable pub is_space : ℕ → Bool
is_space c =
    (leb 9 c && leb c 13)
    || eqb c 32
    || eqb c 0xa0
    || eqb c 0x1680
    || (leb 0x2000 c && leb c 0x200a)
    || eqb c 0x2028
    || eqb c 0x2029
    || eqb c 0x202f
    || eqb c 0x205f
    || eqb c 0x3000
    || eqb c 0xfeff

unfoldable pub trim_start : Text → Text
unfolding is_space
trim_start [] = []
trim_start (c ∷ s) = if is_space c then trim_start s else c ∷ s

unfoldable pub trim_end : Text → Text
unfolding is_space
trim_end [] = []
trim_end (c ∷ s) =
    let rest = trim_end s in
    elim rest [ [] ↦ (if is_space c then [] else c ∷ []) | d ∷ r ↦ c ∷ d ∷ r ]

unfoldable pub trim : Text → Text
unfolding trim_start trim_end
trim s = trim_end (trim_start s)

-- /^-?\d+(\.\d{1,2})?$/
unfoldable pub match_fraction : Text → Bool
unfolding is_digit
match_fraction (a ∷ []) = is_digit a
match_fraction (a ∷ b ∷ []) = is_digit a && is_digit b
match_fraction _ = false

unfoldable pub match_rest : Text → Bool
unfolding is_digit match_fraction
match_rest [] = true
match_rest (c ∷ s) =
    if is_digit c then match_rest s else if eqb c b'.' then match_fraction s else false

unfoldable pub match_unsigned : Text → Bool
unfolding is_digit match_rest
match_unsigned [] = false
match_unsigned (c ∷ s) = is_digit c && match_rest s

unfoldable pub starts_with_minus : Text → Bool
starts_with_minus [] = false
starts_with_minus (c ∷ s) = eqb c b'-'

unfoldable pub money_pattern : Text → Bool
unfolding match_unsigned starts_with_minus
money_pattern s = match_unsigned (if starts_with_minus s then drop 1 s else s)

unfoldable pub normalize_money_input : MoneyInput → Result Text
unfolding trim money_pattern
normalize_money_input value =
    let normalized : Text = elim value [ MoneyInput.number s ↦ s | MoneyInput.string s ↦ trim s ] in
    if money_pattern normalized
    then ok normalized
    else err (plain (text "Invalid money amount: " ++ input_text value))

-- The two first pieces of `split('.')`; a missing second piece is the empty string.
unfoldable pub before_dot : Text → Text
before_dot [] = []
before_dot (c ∷ s) = if eqb c b'.' then [] else c ∷ before_dot s

unfoldable pub after_dot : Text → Text
unfolding before_dot
after_dot [] = []
after_dot (c ∷ s) = if eqb c b'.' then before_dot s else after_dot s

unfoldable pub pad_end : Text → ℕ → ℕ → Text
pad_end s n c = s ++ replicate (n - length s) c

unfoldable pub pad_start : Text → ℕ → ℕ → Text
pad_start s n c = replicate (n - length s) c ++ s

abbrev pub money_scale : ℕ
money_scale = 2

-- What `parseMoneyToMinorUnits` does with the normalized text.
unfoldable pub parse_normalized : Text → ℤ
unfolding starts_with_minus before_dot after_dot pad_end read_nat
parse_normalized normalized =
    let negative = starts_with_minus normalized in
    let unsigned = if negative then drop 1 normalized else normalized in
    let minor_units =
      pos (read_nat (before_dot unsigned ++ pad_end (after_dot unsigned) money_scale b'0')) in
    if negative then pos 0 -ℤ minor_units else minor_units

unfoldable pub parse_money_to_minor_units : MoneyInput → Result ℤ
unfolding normalize_money_input parse_normalized
parse_money_to_minor_units value = do
  normalized ← normalize_money_input value
  ok (parse_normalized normalized)

-- `${whole}.${fraction}` for `raw.slice(0, -MONEY_SCALE)` and `raw.slice(-MONEY_SCALE)`
unfoldable pub with_point : Text → Text
with_point raw =
    let whole = take (length raw - money_scale) raw in
    let fraction = drop (length raw - money_scale) raw in whole ++ b'.' ∷ fraction

unfoldable pub format_minor_units_to_money : ℤ → Text
format_minor_units_to_money minor_units =
    let negative = ltb_ℤ minor_units (pos 0) in
    let absolute = if negative then pos 0 -ℤ minor_units else minor_units in
    let raw = pad_start (to_string absolute) (money_scale + 1) b'0' in
    (if negative then b'-' ∷ [] else []) ++ with_point raw

-- A JavaScript number that the code makes by `Number(...)` is denoted by the decimal text that it
-- is read from; what a binary64 prints is a parameter where it matters.
abbrev pub JsNumber : Type 0
JsNumber = Text

unfoldable pub minor_units_to_number : ℤ → JsNumber
minor_units_to_number minor_units = format_minor_units_to_money minor_units

unfoldable pub parse_money_to_number : MoneyInput → Result JsNumber
parse_money_to_number value = do
  minor_units ← parse_money_to_minor_units value
  ok (format_minor_units_to_money minor_units)
