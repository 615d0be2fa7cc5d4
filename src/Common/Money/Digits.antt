-- ===== src/Common/Money/Digits.antt =====
-- Decimal printing and reading are inverse, and printed numbers are digits.
use event_sourced_core_banki.Base.{
  ℕ, zero, suc, ◌+◌, ◌-◌, ◌*◌, ◌/◌, ◌%◌, ◌≤◌, ◌<◌, ◌≡◌, refl, true, false, inl, inr, [], ◌∷◌, ◌++◌,
  arith, ltb, Text, length, length-append, All, All-append, Bool-cases, replicate, ℤ, pos, negsuc,
  int_laws,
}
use event_sourced_core_banki.Common.Money.Decimal.{
  is_digit, show_fuel, show_nat, read_from, read_nat, read_int, to_string,
}

abbrev pub IsDigit : ℕ → Type 0
IsDigit c = (48 ≤ c) × (c ≤ 57)

pub IsDigit-is_digit : (c : ℕ) → IsDigit c → is_digit c ≡ true
unfolding is_digit
IsDigit-is_digit c h = ground arith

pub read_from-append :
    (acc : ℕ) (s t : Text) → read_from acc (s ++ t) ≡ read_from (read_from acc s) t
unfolding read_from
read_from-append acc [] t = refl
read_from-append acc (c ∷ s) t = read_from-append (acc * 10 + (c - 48)) s t

pub read_from-zeros : (n : ℕ) (s : Text) → read_from 0 (replicate n 48 ++ s) ≡ read_from 0 s
unfolding read_from
read_from-zeros zero s = refl
read_from-zeros (suc n) s = read_from-zeros n s

show_fuel-small : (f n : ℕ) → ltb n 10 ≡ true → show_fuel (suc f) n ≡ (48 + n) ∷ []
unfolding show_fuel
show_fuel-small f n e = rw (e, show_fuel)

show_fuel-large :
    (f n : ℕ) → ltb n 10 ≡ false → show_fuel (suc f) n ≡ show_fuel f (n / 10) ++ (48 + n % 10) ∷ []
unfolding show_fuel
show_fuel-large f n e = ground arith

show_fuel-digits : (f n : ℕ) → All IsDigit (show_fuel f n)
unfolding show_fuel
show_fuel-digits zero n = tt
show_fuel-digits (suc f) n = elim (Bool-cases (ltb n 10)) [
  | inl e ↦ rw (show_fuel-small f n e) (ground arith, tt)
  | inr e ↦ rw (show_fuel-large f n e) (
      All-append IsDigit (show_fuel f (n / 10)) ((48 + n % 10) ∷ []) (show_fuel-digits f (n / 10))
        ((omega arith, omega arith), tt))
]

read-show_fuel : (f n : ℕ) → n < f → read_from 0 (show_fuel f n) ≡ n
unfolding show_fuel read_from
read-show_fuel zero n h = absurd (omega arith)
read-show_fuel (suc f) n h = elim (Bool-cases (ltb n 10)) [
  | inl e ↦ rw (show_fuel-small f n e) (omega arith)
  | inr e ↦
      rw
        (
          show_fuel-large f n e,
          read_from-append 0 (show_fuel f (n / 10)) ((48 + n % 10) ∷ []),
          read-show_fuel f (n / 10) (ground arith),
        )
        (omega arith)
]

show_fuel-pos : (f n : ℕ) → 0 < f → 1 ≤ length (show_fuel f n)
unfolding show_fuel
show_fuel-pos zero n h = absurd (omega arith)
show_fuel-pos (suc f) n h = elim (Bool-cases (ltb n 10)) [
  | inl e ↦ rw (show_fuel-small f n e) (omega arith)
  | inr e ↦
      rw (show_fuel-large f n e)
        (omega (arith, length-append (show_fuel f (n / 10)) ((48 + n % 10) ∷ [])))
]

pub show_nat-digits : (n : ℕ) → All IsDigit (show_nat n)
unfolding show_nat
show_nat-digits n = show_fuel-digits (suc n) n

-- A printed number reads back as itself.
pub read_nat-show_nat : (n : ℕ) → read_nat (show_nat n) ≡ n
unfolding show_nat read_nat
read_nat-show_nat n = read-show_fuel (suc n) n (omega arith)

pub show_nat-pos : (n : ℕ) → 1 ≤ length (show_nat n)
unfolding show_nat
show_nat-pos n = show_fuel-pos (suc n) n (omega arith)

unsigned-read_int : (s : Text) → All IsDigit s → read_int s ≡ pos (read_nat s)
unfolding read_int read_nat read_from
unsigned-read_int [] h = refl
unsigned-read_int (c ∷ s) h = ground arith

-- A printed `bigint` reads back as itself.
pub read_int-to_string : (z : ℤ) → read_int (to_string z) ≡ z
unfolding to_string
read_int-to_string (pos n) =
    rw (unsigned-read_int (show_nat n) (show_nat-digits n), read_nat-show_nat n)
read_int-to_string (negsuc n) = unfold read_int in rw (read_nat-show_nat (suc n)) (omega int_laws)
