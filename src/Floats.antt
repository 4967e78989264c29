-- ===== src/Floats.antt =====
-- `float64` without NaN, as far as the program uses it: internal/middleware/rate_limit.go,
-- internal/metrics/metrics.go, internal/config/config.go and cmd/pressure/main.go. The laws are those
-- of IEEE 754 with its rounding: an operation is monotone, and exact on integers up to 2 ^ 53.
use go_order_lab.Prelude.{
  ℕ, suc, ◌<◌, ◌≤◌, ◌^◌, ◌≡◌, Bool, true, false, Option, some, ℤ, pos, ◌≤ℤ◌, Text,
}

pub record Floats : Type 1 where
  pub F : Type 0
  pub of_int : ℤ → F
  -- The literal of n / 1000, and `Seconds()` of a duration.
  pub thousandths : ℕ → F
  pub seconds : ℤ → F
  pub add : F → F → F
  pub sub : F → F → F
  pub mul : F → F → F
  pub div : F → F → F
  pub leb : F → F → Bool
  -- `int(x)` and `int(math.Ceil(x))`
  pub truncate : F → ℤ
  pub ceil : F → ℤ
  -- `strconv.FormatFloat(x, 'f', -1, 64)` and `strconv.ParseFloat(s, 64)`
  pub format : F → Text
  pub parse : Text → Option F
  pub leb_refl : (x : F) → leb x x ≡ true
  pub leb_trans : (x y z : F) → leb x y ≡ true → leb y z ≡ true → leb x z ≡ true
  pub leb_total : (x y : F) → leb x y ≡ false → leb y x ≡ true
  pub of_int_mono : (m n : ℤ) → m ≤ℤ n → leb (of_int m) (of_int n) ≡ true
  pub one_positive : leb (of_int (pos 1)) (of_int (pos 0)) ≡ false
  pub thousandths_mono : (m n : ℕ) → m ≤ n → leb (thousandths m) (thousandths n) ≡ true
  -- Literals with three places stay apart well beyond a million.
  pub thousandths_strict :
      (m n : ℕ) → m < n → n ≤ 2 ^ 30 → leb (thousandths n) (thousandths m) ≡ false
  pub thousandths_none : thousandths 0 ≡ of_int (pos 0)
  pub thousandths_whole : thousandths 1000 ≡ of_int (pos 1)
  pub seconds_none : (d : ℤ) → d ≤ℤ pos 0 → leb (seconds d) (of_int (pos 0)) ≡ true
  pub add_grows : (x y : F) → leb (of_int (pos 0)) y ≡ true → leb x (add x y) ≡ true
  pub mul_nonneg :
      (x y : F)
      → leb (of_int (pos 0)) x ≡ true
      → leb (of_int (pos 0)) y ≡ true
      → leb (of_int (pos 0)) (mul x y) ≡ true
  pub sub_one :
      (x : F)
      → leb (of_int (pos 1)) x ≡ true
      → (leb (of_int (pos 0)) (sub x (of_int (pos 1))) ≡ true)
        × (leb (sub x (of_int (pos 1))) x ≡ true)
  pub sub_exact :
      (n : ℕ) → n < 2 ^ 53 → sub (of_int (pos (suc n))) (of_int (pos 1)) ≡ of_int (pos n)
  pub mul_mono :
      (p q x : F)
      → leb (of_int (pos 0)) p ≡ true
      → leb p q ≡ true
      → leb q (of_int (pos 1)) ≡ true
      → leb (of_int (pos 0)) x ≡ true
      → leb x (of_int (pos (2 ^ 53))) ≡ true
      → leb (mul p x) (mul q x) ≡ true
  pub mul_one : (x : F) → mul (of_int (pos 1)) x ≡ x
  -- Half of a positive integer is positive.
  pub mul_half :
      (n : ℕ)
      → n < 2 ^ 53
      → leb (mul (thousandths 500) (of_int (pos (suc n)))) (of_int (pos 0)) ≡ false
  -- The conversion to an int is Go's own choice outside of its range.
  pub ceil_mono :
      (x y : F)
      → leb (of_int (pos 0)) x ≡ true
      → leb x y ≡ true
      → leb y (of_int (pos (2 ^ 53))) ≡ true
      → ceil x ≤ℤ ceil y
  pub ceil_exact : (n : ℕ) → n < 2 ^ 53 → ceil (of_int (pos n)) ≡ pos n
  pub ceil_pos :
      (x : F)
      → leb x (of_int (pos 0)) ≡ false
      → leb x (of_int (pos (2 ^ 53))) ≡ true
      → pos 1 ≤ℤ ceil x
  -- The shortest print is read back as the number that was printed.
  pub parse_format : (x : F) → parse (format x) ≡ some x
