-- ===== src/Prelude/Decimal/Parse.antt =====
-- `strconv.ParseUint(s, 10, 64)` and `strconv.Atoi` with a 64-bit `int`, as far as they succeed, and
-- that they read what is printed.
use Prim.Native.Nat.{ℕ, zero, suc, ◌+◌, ◌-◌, ◌*◌, ◌/◌, ◌%◌, ◌^◌, ◌≤◌, ◌<◌}
use mathlib.Core.Path.{◌≡◌, refl, sym, ap, ◌∙◌}
use mathlib.Core.Bool.{◌&&◌}
use mathlib.Core.Logic.{◌≢◌, inl, inr}
use mathlib.Core.Option.{Option, none, some}
use mathlib.Core.List.{[], ◌∷◌, ◌++◌, reverse, reverse-cons}
use native.Mathlib.Omega.{arith}
use go_order_lab.Prelude.Tests.{ltb, leb, ◌==◌, if◌then◌else◌, Bool-cases}
use go_order_lab.Prelude.Texts.{Text}
use go_order_lab.Prelude.Int.{ℤ, pos, negsuc, IsInt64}
use go_order_lab.Prelude.Decimal.{digits, decimal}

-- The number that the digits continue.
unfoldable pub read_digits : ℕ → Text → Option ℕ
read_digits n [] = some n
read_digits n (c ∷ s) =
    if leb b'0' c && leb c b'9' then read_digits (n * 10 + (c - b'0')) s else none

unfoldable pub read_number : Text → Option ℕ
unfolding read_digits
read_number [] = none
read_number (c ∷ s) = read_digits 0 (c ∷ s)

-- A number below the limit.
abbrev pub below : ℕ → Option ℕ → Option ℕ
below limit none = none
below limit (some n) = if ltb n limit then some n else none

unfoldable pub parse_uint : Text → Option ℕ
unfolding read_number
parse_uint s = below (2 ^ 64) (read_number s)

abbrev pub positive : Option ℕ → Option ℤ
positive none = none
positive (some n) = some (pos n)

abbrev pub negative : Option ℕ → Option ℤ
negative none = none
negative (some zero) = some (pos 0)
negative (some (suc n)) = some (negsuc n)

unfoldable pub atoi : Text → Option ℤ
unfolding read_number
atoi [] = none
atoi (c ∷ s) =
    if c == b'-'
    then negative (below (2 ^ 63 + 1) (read_number s))
    else if c == b'+'
    then positive (below (2 ^ 63) (read_number s))
    else positive (below (2 ^ 63) (read_number (c ∷ s)))

read_digits-append :
    (s : Text) (c n m : ℕ)
    → read_digits n s ≡ some m
    → b'0' ≤ c
    → c ≤ b'9'
    → read_digits n (s ++ c ∷ []) ≡ some (m * 10 + (c - b'0'))
unfolding read_digits
read_digits-append [] c n m h lo hi = ground arith
read_digits-append (d ∷ s) c n m h lo hi =
    ground (arith, read_digits-append s c (n * 10 + (d - b'0')) m)

read_digit : (n : ℕ) → n < 10 → read_digits 0 ((b'0' + n % 10) ∷ []) ≡ some n
unfolding read_digits
read_digit n h = ground arith

read_digits-digits : (fuel n : ℕ) → n < fuel → read_digits 0 (reverse (digits fuel n)) ≡ some n
unfolding digits
read_digits-digits zero n h = absurd (omega arith)
read_digits-digits (suc fuel) n h = elim (Bool-cases (ltb n 10)) [
  | inl last ↦ rw last (read_digit n (ground arith))
  | inr more ↦
      (let rest = read_digits-digits fuel (n / 10) (ground arith) in
        rw more (
          ap (read_digits 0) (reverse-cons (b'0' + n % 10) (digits fuel (n / 10)))
          ∙ read_digits-append (reverse (digits fuel (n / 10))) (b'0' + n % 10) 0 (n / 10) rest
              (omega arith) (omega arith)
          ∙ ap some (omega arith)))
]

snoc_some : (s : Text) (c : ℕ) → s ++ c ∷ [] ≢ []
snoc_some [] c = cc
snoc_some (d ∷ s) c = cc

decimal_some : (n : ℕ) → decimal n ≢ []
unfolding decimal digits
decimal_some n e =
    snoc_some (reverse (if ltb n 10 then [] else digits n (n / 10))) (b'0' + n % 10)
      (sym (reverse-cons (b'0' + n % 10) (if ltb n 10 then [] else digits n (n / 10))) ∙ e)

read_digits-decimal : (n : ℕ) → read_digits 0 (decimal n) ≡ some n
unfolding decimal
read_digits-decimal n = read_digits-digits (suc n) n (omega arith)

read_number-digits : (s : Text) (n : ℕ) → s ≢ [] → read_digits 0 s ≡ some n → read_number s ≡ some n
unfolding read_number
read_number-digits [] n h e = absurd (h refl)
read_number-digits (c ∷ s) n h e = e

pub read_number-decimal : (n : ℕ) → read_number (decimal n) ≡ some n
read_number-decimal n = read_number-digits (decimal n) n (decimal_some n) (read_digits-decimal n)

-- Every `uint` is read back from its print.
pub parse_uint-decimal : (n : ℕ) → n < 2 ^ 64 → parse_uint (decimal n) ≡ some n
unfolding parse_uint
parse_uint-decimal n h = rw (read_number-decimal n) (ground arith)

atoi-digits :
    (s : Text) (n : ℕ) → s ≢ [] → read_digits 0 s ≡ some n → n < 2 ^ 63 → atoi s ≡ some (pos n)
unfolding atoi read_number read_digits
atoi-digits [] n h e small = absurd (h refl)
atoi-digits (c ∷ s) n h e small = ground arith

-- Every `int` is read back from its print.
pub atoi-decimal : (n : ℕ) → n < 2 ^ 63 → atoi (decimal n) ≡ some (pos n)
atoi-decimal n small = atoi-digits (decimal n) n (decimal_some n) (read_digits-decimal n) small

pub atoi-negative : (n : ℕ) → n < 2 ^ 63 → atoi (b'-' ∷ decimal (suc n)) ≡ some (negsuc n)
unfolding atoi
atoi-negative n small = rw (read_number-decimal (suc n)) (ground arith)

in_range_positive : (o : Option ℕ) (a : ℤ) → positive (below (2 ^ 63) o) ≡ some a → IsInt64 a
in_range_positive none a h = cc
in_range_positive (some n) a h = ground arith

in_range_negative : (o : Option ℕ) (a : ℤ) → negative (below (2 ^ 63 + 1) o) ≡ some a → IsInt64 a
in_range_negative none a h = cc
in_range_negative (some zero) a h = ground arith
in_range_negative (some (suc n)) a h = ground arith

-- What is read is in range.
pub atoi-IsInt64 : (s : Text) (a : ℤ) → atoi s ≡ some a → IsInt64 a
unfolding atoi
atoi-IsInt64 [] a h = cc
atoi-IsInt64 (c ∷ s) a h = elim (Bool-cases (c == b'-')) [
  | inl minus ↦ in_range_negative (read_number s) a (rw minus at h)
  | inr other ↦ elim (Bool-cases (c == b'+')) [
    | inl plus ↦ in_range_positive (read_number s) a (rw (other, plus) at h)
    | inr digit ↦ in_range_positive (read_number (c ∷ s)) a (rw (other, digit) at h)
  ]
]
