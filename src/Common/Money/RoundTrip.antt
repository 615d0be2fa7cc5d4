-- ===== src/Common/Money/RoundTrip.antt =====
-- `parseMoneyToMinorUnits` undoes `formatMinorUnitsToMoney`, at every `bigint`.
use event_sourced_core_banki.Base.{
  ℕ, suc, ◌-◌, ◌≤◌, ◌≡◌, refl, sym, ◌∙◌, ap, [], ◌∷◌, ◌++◌, arith, Text, length, length-append,
  take, drop, replicate, length-take, length-drop, length-replicate, take-append-drop, All,
  All-append, All-take, All-drop, All-replicate, ℤ, pos, negsuc, ◌-ℤ◌, int_laws,
}
use event_sourced_core_banki.Common.Result.{ok}
use event_sourced_core_banki.Common.Money.{
  MoneyInput, with_point, show_nat, read_nat, pad_start, to_string, parse_money_to_minor_units,
  format_minor_units_to_money,
}
use event_sourced_core_banki.Common.Money.Digits.{
  IsDigit, show_nat-digits, read_nat-show_nat, read_from-zeros,
}
use event_sourced_core_banki.Common.Money.Canonical.{body, parse-body, parse-minus}

-- The digits of a text, split where `slice(0, -2)` and `slice(-2)` split it.
record Split (s : Text) : Type 0 where
  c : ℕ
  w : Text
  a : ℕ
  b : ℕ
  whole : take (length s - 2) s ≡ c ∷ w
  fraction : drop (length s - 2) s ≡ a ∷ b ∷ []
  joined : s ≡ c ∷ w ++ a ∷ b ∷ []
  hc : IsDigit c
  hw : All IsDigit w
  ha : IsDigit a
  hb : IsDigit b

Split-from :
    (s p q : Text)
    → take (length s - 2) s ≡ p
    → drop (length s - 2) s ≡ q
    → s ≡ p ++ q
    → 1 ≤ length p
    → length q ≡ 2
    → All IsDigit p
    → All IsDigit q
    → Split s
Split-from s [] q hp hq j lp lq dp dq = absurd (omega arith)
Split-from s (c ∷ w) [] hp hq j lp lq dp dq = absurd (omega arith)
Split-from s (c ∷ w) (a ∷ []) hp hq j lp lq dp dq = absurd (omega arith)
Split-from s (c ∷ w) (a ∷ b ∷ []) hp hq j lp lq dp dq = record {
  c = c;
  w = w;
  a = a;
  b = b;
  whole = hp;
  fraction = hq;
  joined = j;
  hc = dp.0;
  hw = dp.1;
  ha = dq.0;
  hb = dq.1.0;
}
Split-from s (c ∷ w) (a ∷ b ∷ d ∷ q) hp hq j lp lq dp dq = absurd (omega arith)

split : (s : Text) → 3 ≤ length s → All IsDigit s → Split s
split s l h =
    Split-from s (take (length s - 2) s) (drop (length s - 2) s) refl refl
      (sym (take-append-drop (length s - 2) s)) (omega (arith, length-take (length s - 2) s))
      (omega (arith, length-drop (length s - 2) s)) (All-take IsDigit (length s - 2) s h)
      (All-drop IsDigit (length s - 2) s h)

module _ (n : ℕ) where
  abbrev raw : Text
  raw = pad_start (show_nat n) 3 b'0'

  length-raw : 3 ≤ length raw
  unfolding pad_start
  length-raw = omega (
    arith,
    length-append (replicate (3 - length (show_nat n)) b'0') (show_nat n),
    length-replicate {A = ℕ} (3 - length (show_nat n)) b'0',
  )

  raw-digits : All IsDigit raw
  unfolding pad_start
  raw-digits =
      All-append IsDigit (replicate (3 - length (show_nat n)) b'0') (show_nat n)
        (All-replicate IsDigit (3 - length (show_nat n)) b'0' (omega arith)) (show_nat-digits n)

  read_nat-raw : read_nat raw ≡ n
  unfolding pad_start read_nat
  read_nat-raw =
      read_from-zeros (3 - length (show_nat n)) (show_nat n)
      ∙ (unfold read_nat in read_nat-show_nat n)

  raw-Split : Split raw
  raw-Split = split raw length-raw raw-digits

  read_nat-Split : (s : Split raw) → read_nat (s.c ∷ s.w ++ s.a ∷ s.b ∷ []) ≡ n
  read_nat-Split s = ap read_nat (sym s.joined) ∙ read_nat-raw

with_point-Split : (s : Text) (p : Split s) → with_point s ≡ body p.c p.w p.a p.b
unfolding with_point
with_point-Split s p = rw (p.whole, p.fraction)

format-pos : (n : ℕ) → format_minor_units_to_money (pos n) ≡ with_point (raw n)
unfolding format_minor_units_to_money to_string
format-pos n = ground arith

format-negsuc : (n : ℕ) → format_minor_units_to_money (negsuc n) ≡ b'-' ∷ with_point (raw (suc n))
unfolding format_minor_units_to_money to_string ◌-ℤ◌
format-negsuc n = ground arith

-- Every amount in minor units, negative ones included, formatted as money parses back to itself.
pub parse-format :
    (z : ℤ) → parse_money_to_minor_units (MoneyInput.string (format_minor_units_to_money z)) ≡ ok z
parse-format (pos n) =
    let s = raw-Split n in
    rw (
      format-pos n,
      with_point-Split (raw n) s,
      parse-body s.c s.w s.a s.b s.hc s.hw s.ha s.hb,
      read_nat-Split n s,
    )
parse-format (negsuc n) =
    let s = raw-Split (suc n) in
    rw
      (
        format-negsuc n,
        with_point-Split (raw (suc n)) s,
        parse-minus s.c s.w s.a s.b s.hc s.hw s.ha s.hb,
        read_nat-Split (suc n) s,
      )
      (ap ok (omega int_laws))
