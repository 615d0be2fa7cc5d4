-- ===== src/Common/Money/Canonical.antt =====
-- The texts `w.ab` and `-w.ab` for digits w, a and b: `parseMoneyToMinorUnits` accepts them and
-- reads the digits `wab`.
use event_sourced_core_banki.Base.{
  ℕ, ◌≡◌, refl, sym, ap, ◌∙◌, true, false, [], ◌∷◌, ◌++◌, append_assoc, arith, eqb, Text, All, pos,
  ◌-ℤ◌,
}
use event_sourced_core_banki.Common.Result.{ok}
use event_sourced_core_banki.Common.Money.{
  MoneyInput, is_space, trim_start, trim_end, trim, match_rest, match_unsigned, starts_with_minus,
  money_pattern, normalize_money_input, before_dot, after_dot, pad_end, read_nat, parse_normalized,
  parse_money_to_minor_units,
}
use event_sourced_core_banki.Common.Money.Digits.{IsDigit, IsDigit-is_digit}

space-minus : is_space b'-' ≡ false
unfolding is_space
space-minus = refl

space-digit : (c : ℕ) → IsDigit c → is_space c ≡ false
unfolding is_space
space-digit c h = ground arith

digit-ne-dot : (c : ℕ) → IsDigit c → eqb c b'.' ≡ false
digit-ne-dot c h = ground arith

trim_start-keep : (c : ℕ) (s : Text) → is_space c ≡ false → trim_start (c ∷ s) ≡ c ∷ s
unfolding trim_start
trim_start-keep c s h = rw h

trim_end-last : (s : Text) (c : ℕ) → is_space c ≡ false → trim_end (s ++ c ∷ []) ≡ s ++ c ∷ []
unfolding trim_end
trim_end-last [] c h = rw h
trim_end-last (d ∷ []) c h = ground (arith, trim_end-last [] c h)
trim_end-last (d ∷ e ∷ s) c h = rw (trim_end-last (e ∷ s) c h)

match_rest-digits :
    (w : Text) (a b : ℕ)
    → All IsDigit w
    → IsDigit a
    → IsDigit b
    → match_rest (w ++ b'.' ∷ a ∷ b ∷ []) ≡ true
unfolding match_rest
match_rest-digits [] a b hw ha hb = rw (IsDigit-is_digit a ha, IsDigit-is_digit b hb)
match_rest-digits (c ∷ w) a b hw ha hb =
    rw (IsDigit-is_digit c hw.0) (match_rest-digits w a b hw.1 ha hb)

pub before_dot-digits : (w s : Text) → All IsDigit w → before_dot (w ++ b'.' ∷ s) ≡ w
unfolding before_dot
before_dot-digits [] s h = refl
before_dot-digits (c ∷ w) s h = rw (digit-ne-dot c h.0, before_dot-digits w s h.1)

pub before_dot-All : (w : Text) → All IsDigit w → before_dot w ≡ w
unfolding before_dot
before_dot-All [] h = refl
before_dot-All (c ∷ w) h = rw (digit-ne-dot c h.0, before_dot-All w h.1)

pub after_dot-digits : (w s : Text) → All IsDigit w → after_dot (w ++ b'.' ∷ s) ≡ before_dot s
unfolding after_dot
after_dot-digits [] s h = refl
after_dot-digits (c ∷ w) s h = rw (digit-ne-dot c h.0) (after_dot-digits w s h.1)

pub after_dot-none : (w : Text) → All IsDigit w → after_dot w ≡ []
unfolding after_dot
after_dot-none [] h = refl
after_dot-none (c ∷ w) h = rw (digit-ne-dot c h.0) (after_dot-none w h.1)

-- c and w are the digits before the dot, a and b those behind it.
abbrev pub body : ℕ → Text → ℕ → ℕ → Text
body c w a b = c ∷ w ++ b'.' ∷ a ∷ b ∷ []

module _ (c : ℕ) (w : Text) (a b : ℕ) (hc : IsDigit c) (hw : All IsDigit w) (ha : IsDigit a)
    (hb : IsDigit b) where
  trim_end-body : (s : Text) → s ++ body c w a b ≡ (s ++ c ∷ w ++ b'.' ∷ a ∷ []) ++ b ∷ []
  trim_end-body s = simp append_assoc

  trim-body : trim (body c w a b) ≡ body c w a b
  unfolding trim
  trim-body = rw (trim_start-keep c (w ++ b'.' ∷ a ∷ b ∷ []) (space-digit c hc)) (
      ap trim_end (trim_end-body [])
      ∙ trim_end-last (c ∷ w ++ b'.' ∷ a ∷ []) b (space-digit b hb)
      ∙ sym (trim_end-body []))

  trim-minus : trim (b'-' ∷ body c w a b) ≡ b'-' ∷ body c w a b
  unfolding trim
  trim-minus = rw (trim_start-keep b'-' (body c w a b) space-minus) (
      ap trim_end (trim_end-body (b'-' ∷ []))
      ∙ trim_end-last (b'-' ∷ c ∷ w ++ b'.' ∷ a ∷ []) b (space-digit b hb)
      ∙ sym (trim_end-body (b'-' ∷ [])))

  match_unsigned-body : match_unsigned (body c w a b) ≡ true
  unfolding match_unsigned
  match_unsigned-body = rw (IsDigit-is_digit c hc) (match_rest-digits w a b hw ha hb)

  unsigned_body : starts_with_minus (body c w a b) ≡ false
  unfolding starts_with_minus
  unsigned_body = ground arith

  money_pattern-body : money_pattern (body c w a b) ≡ true
  unfolding money_pattern
  money_pattern-body = rw (unsigned_body, match_unsigned-body)

  money_pattern-minus : money_pattern (b'-' ∷ body c w a b) ≡ true
  unfolding money_pattern
  money_pattern-minus = match_unsigned-body

  parse_normalized-body : parse_normalized (body c w a b) ≡ pos (read_nat (c ∷ w ++ a ∷ b ∷ []))
  unfolding parse_normalized pad_end
  parse_normalized-body = rw (
    unsigned_body,
    before_dot-digits (c ∷ w) (a ∷ b ∷ []) (hc, hw),
    after_dot-digits (c ∷ w) (a ∷ b ∷ []) (hc, hw),
    before_dot-All (a ∷ b ∷ []) (ha, (hb, tt)),
  )

  parse_normalized-minus :
      parse_normalized (b'-' ∷ body c w a b) ≡ pos 0 -ℤ pos (read_nat (c ∷ w ++ a ∷ b ∷ []))
  unfolding parse_normalized pad_end
  parse_normalized-minus = rw (
    before_dot-digits (c ∷ w) (a ∷ b ∷ []) (hc, hw),
    after_dot-digits (c ∷ w) (a ∷ b ∷ []) (hc, hw),
    before_dot-All (a ∷ b ∷ []) (ha, (hb, tt)),
  )

  pub parse-body :
      parse_money_to_minor_units (MoneyInput.string (body c w a b))
      ≡ ok (pos (read_nat (c ∷ w ++ a ∷ b ∷ [])))
  unfolding parse_money_to_minor_units normalize_money_input
  parse-body = rw (trim-body, money_pattern-body, parse_normalized-body)

  pub parse-minus :
      parse_money_to_minor_units (MoneyInput.string (b'-' ∷ body c w a b))
      ≡ ok (pos 0 -ℤ pos (read_nat (c ∷ w ++ a ∷ b ∷ [])))
  unfolding parse_money_to_minor_units normalize_money_input
  parse-minus = rw (trim-minus, money_pattern-minus, parse_normalized-minus)

  pub parse_number-body :
      parse_money_to_minor_units (MoneyInput.number (body c w a b))
      ≡ ok (pos (read_nat (c ∷ w ++ a ∷ b ∷ [])))
  unfolding parse_money_to_minor_units normalize_money_input
  parse_number-body = rw (money_pattern-body, parse_normalized-body)
