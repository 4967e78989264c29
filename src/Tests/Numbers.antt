-- ===== src/Tests/Numbers.antt =====
-- Numbers in thousandths that are not negative, as a model of the laws of `float64`.
use go_order_lab.Prelude.{
  ℕ, ◌+◌, ◌-◌, ◌*◌, ◌/◌, ◌≤◌, ◌≡◌, refl, true, Option, none, some, [], ◌∷◌, ℤ, pos, negsuc, ◌≤ℤ◌,
  arith, Text, leb,
}
use go_order_lab.Floats.{Floats}

abbrev pub whole : ℤ → ℕ
whole (pos n) = n * 1000
whole (negsuc n) = 0

abbrev pub millis : ℤ → ℕ
millis (pos d) = d / 1_000_000
millis (negsuc d) = 0

abbrev pub round_up : ℕ → ℤ
round_up x = pos ((x + 999) / 1000)

abbrev pub product : ℕ → ℕ → ℕ
product x y = x * y / 1000

abbrev pub read_number : Text → Option ℕ
read_number (x ∷ []) = some x
read_number _ = none

pub whole_mono : (m n : ℤ) → m ≤ℤ n → leb (whole m) (whole n) ≡ true
whole_mono (pos m) (pos n) h = ground arith
whole_mono (pos m) (negsuc n) h = absurd (omega arith)
whole_mono (negsuc m) n h = ground arith

pub millis_none : (d : ℤ) → d ≤ℤ pos 0 → leb (millis d) 0 ≡ true
millis_none (pos d) h = ground arith
millis_none (negsuc d) h = refl

pub product_mono : (p q x : ℕ) → leb p q ≡ true → leb (product p x) (product q x) ≡ true
product_mono p q x h =
    let le : p ≤ q = ground arith in let more : p * x ≤ q * x = grind arith in ground arith

-- The laws that need no more than arithmetic.
abbrev pub numbers : Floats
numbers = record {
  F = ℕ;
  of_int = whole;
  thousandths = λ n. n;
  seconds = millis;
  add = λ x y. x + y;
  sub = λ x y. x - y;
  mul = product;
  div = λ x y. x * 1000 / y;
  leb = leb;
  truncate = λ x. pos (x / 1000);
  ceil = round_up;
  format = λ x. x ∷ [];
  parse = read_number;
  leb_refl = λ x. ground arith;
  leb_trans = λ x y z h k. ground arith;
  leb_total = λ x y h. ground arith;
  of_int_mono = whole_mono;
  one_positive = refl;
  thousandths_mono = λ m n h. ground arith;
  thousandths_strict = λ m n h fits. ground arith;
  thousandths_none = refl;
  thousandths_whole = refl;
  seconds_none = millis_none;
  add_grows = λ x y h. ground arith;
  mul_nonneg = λ x y h k. ground arith;
  sub_one = λ x h. (ground arith, ground arith);
  sub_exact = λ n h. ground arith;
  mul_mono = λ p q x low h high some few. product_mono p q x h;
  mul_one = λ x. ground arith;
  mul_half = λ n few. ground arith;
  ceil_mono = λ x y low h high. ground arith;
  ceil_exact = λ n h. ground arith;
  ceil_pos = λ x h high. ground arith;
  parse_format = λ x. refl;
}
