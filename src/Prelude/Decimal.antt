-- ===== src/Prelude/Decimal.antt =====
-- The decimal print of a number, `%d` of a Go `uint`, and that no two numbers share it.
pub mod Parse
use Prim.Native.Nat.{ℕ, zero, suc, ◌+◌, ◌-◌, ◌*◌, ◌/◌, ◌%◌, ◌≤◌, ◌<◌}
use mathlib.Core.Path.{◌≡◌, refl, sym, ap, ◌∙◌}
use mathlib.Core.List.{[], ◌∷◌, ◌++◌, reverse, reverse-cons, reverse-reverse}
use native.Mathlib.Omega.{arith}
use go_order_lab.Prelude.Tests.{ltb, if◌then◌else◌}
use go_order_lab.Prelude.Texts.{Text}

-- The digits of `n`, last one first; the fuel bounds their number.
digits : ℕ → ℕ → Text
digits zero n = []
digits (suc fuel) n =
    let rest = digits fuel (n / 10) in (b'0' + n % 10) ∷ (if ltb n 10 then [] else rest)

-- What the digits stand for.
value : Text → ℕ
value [] = 0
value (c ∷ s) = (c - b'0') + 10 * value s

value-digits : (fuel n : ℕ) → n < fuel → value (digits fuel n) ≡ n
unfolding value digits
value-digits zero n h = absurd (omega arith)
value-digits (suc fuel) n h = ground (arith, value-digits fuel (n / 10))

-- A number has no more digits than units, so `n + 1` rounds are enough.
unfoldable pub decimal : ℕ → Text
unfolding digits
decimal n = reverse (digits (suc n) n)

abbrev AllDigits : Text → Type 0
AllDigits [] = Unit
AllDigits (c ∷ s) = (c ≤ b'9') × AllDigits s

AllDigits-append : (s t : Text) → AllDigits s → AllDigits t → AllDigits (s ++ t)
AllDigits-append [] t h k = k
AllDigits-append (c ∷ s) t h k = (h.0, AllDigits-append s t h.1 k)

AllDigits-reverse : (s : Text) → AllDigits s → AllDigits (reverse s)
AllDigits-reverse [] h = tt
AllDigits-reverse (c ∷ s) h =
    rw (reverse-cons c s)
      (AllDigits-append (reverse s) (c ∷ []) (AllDigits-reverse s h.1) (h.0, tt))

digits-AllDigits : (fuel n : ℕ) → AllDigits (digits fuel n)
unfolding digits
digits-AllDigits zero n = tt
digits-AllDigits (suc fuel) n = ground (arith, digits-AllDigits fuel (n / 10))

decimal-AllDigits : (n : ℕ) → AllDigits (decimal n)
unfolding decimal
decimal-AllDigits n = AllDigits-reverse (digits (suc n) n) (digits-AllDigits (suc n) n)

-- No two numbers have the same print.
pub decimal_injective : (m n : ℕ) → decimal m ≡ decimal n → m ≡ n
unfolding decimal
decimal_injective m n e =
    let same : digits (suc m) m ≡ digits (suc n) n =
      sym (reverse-reverse (digits (suc m) m))
      ∙ ap reverse e
      ∙ reverse-reverse (digits (suc n) n) in
    sym (value-digits (suc m) m (omega arith))
    ∙ ap value same
    ∙ value-digits (suc n) n (omega arith)

-- Two texts of digits, each followed by a colon and more, are equal only part by part.
split_at_colon :
    (s t x y : Text)
    → AllDigits s
    → AllDigits t
    → s ++ (b':' ∷ x) ≡ t ++ (b':' ∷ y)
    → (s ≡ t) × (x ≡ y)
split_at_colon [] [] x y h k e = (refl, ground arith)
split_at_colon [] (d ∷ t) x y h k e = absurd (ground arith)
split_at_colon (c ∷ s) [] x y h k e = absurd (ground arith)
split_at_colon (c ∷ s) (d ∷ t) x y h k e =
    ground (arith, split_at_colon s t x y h.1 k.1 (ground arith))

-- The print of a pair, `%d:%d`, determines both numbers.
pub decimal_pair_injective :
    (a b c d : ℕ)
    → decimal a ++ (b':' ∷ decimal b) ≡ decimal c ++ (b':' ∷ decimal d)
    → (a ≡ c) × (b ≡ d)
decimal_pair_injective a b c d e =
    let (p, q) =
      split_at_colon (decimal a) (decimal c) (decimal b) (decimal d) (decimal-AllDigits a)
        (decimal-AllDigits c) e in
    (decimal_injective a c p, decimal_injective b d q)

-- A number's print up to the first colon determines the number, and what follows.
pub decimal_split :
    (a b : ℕ) (x y : Text) → decimal a ++ (b':' ∷ x) ≡ decimal b ++ (b':' ∷ y) → (a ≡ b) × (x ≡ y)
decimal_split a b x y e =
    let (p, q) =
      split_at_colon (decimal a) (decimal b) x y (decimal-AllDigits a) (decimal-AllDigits b) e in
    (decimal_injective a b p, q)
