-- ===== src/Pressure/Places.antt =====
-- Each call of the valid orders in cmd/pressure/main.go has its activity and its user.
use native.Mathlib.Nat.{div-add-mod', mod-lt, div-mul-le_self, le-div_iff_mul-le}
use go_order_lab.Prelude.{
  ℕ, suc, ◌+◌, ◌-◌, ◌*◌, ◌/◌, ◌%◌, ◌^◌, ◌<◌, ◌≤◌, ◌≡◌, ap, ◌∙◌, false, arith, leb, ℤ, pos, negsuc,
  ◌+ℤ◌, ◌-ℤ◌, ◌*ℤ◌, ◌≤ℤ◌, ◌<ℤ◌, wrap64, wrap64_id, eq_of_parts, int_laws, Bool-cases, inl, inr,
}
use go_order_lab.Pressure.Batches.{
  Flags, is_invalid, minimum, quotient, remainder, batch_size, batch_count, batch_stock, batch_of,
  user_of,
}

plus : (a b : ℕ) → pos a +ℤ pos b ≡ pos (a + b)
plus a b = eq_of_parts (pos a +ℤ pos b) (pos (a + b)) (omega int_laws)

less : (a b : ℕ) → b ≤ a → pos a -ℤ pos b ≡ pos (a - b)
less a b h = eq_of_parts (pos a -ℤ pos b) (pos (a - b)) (omega int_laws)

times : (a b : ℕ) → pos a *ℤ pos b ≡ pos (a * b)
unfolding ◌*ℤ◌
times a b = ground arith

stored : (n : ℕ) → n < 2 ^ 63 → wrap64 (pos n) ≡ pos n
stored n h = wrap64_id (pos n) (omega arith, omega arith)

quotient_lt : (i b n : ℕ) → 1 ≤ b → i < n → i / b < (n + b - 1) / b
quotient_lt i b n h small =
    let whole = div-mul-le_self i b in
    let next : suc (i / b) * b ≡ i / b * b + b = grind arith in
    (le-div_iff_mul-le (omega arith)).1 (omega (arith, whole, next))

remainder_lt : (i b n : ℕ) → 1 ≤ b → i < n → (i % b < b) × (i % b < n - i / b * b)
remainder_lt i b n h small =
    let parts = div-add-mod' i b in
    let under : i % b < b = mod-lt i (omega arith) in (under, omega arith)

-- The batches of at least one user and of fewer than 2 ^ 63 - 100 orders, in numbers without a sign.
module _ (u w b : ℕ) (some_user : 1 ≤ b) (few : b ≤ 100) (fits : w + 100 < 2 ^ 63)
    (size : batch_size (pos u) ≡ pos b) where
  count_lem : batch_count (pos u) (pos w) ≡ pos ((w + b - 1) / b)
  unfolding batch_count quotient
  count_lem =
      let sum : wrap64 (pos w +ℤ pos b) ≡ pos (w + b) =
        ap wrap64 (plus w b) ∙ stored (w + b) (omega arith) in
      let back : wrap64 (wrap64 (pos w +ℤ pos b) -ℤ pos 1) ≡ pos (w + b - 1) =
        ap (λ x. wrap64 (x -ℤ pos 1)) sum
        ∙ ap wrap64 (less (w + b) 1 (omega arith))
        ∙ stored (w + b - 1) (omega arith) in
      ap (λ s. quotient (wrap64 (wrap64 (pos w +ℤ s) -ℤ pos 1)) s) size
      ∙ ap (λ x. quotient x (pos b)) back

  stock_lem :
      (k : ℕ) → k * b ≤ w → batch_stock (pos u) (pos w) (pos k) ≡ minimum (pos b) (pos (w - k * b))
  unfolding batch_stock
  stock_lem k h =
      let taken : wrap64 (pos k *ℤ pos b) ≡ pos (k * b) =
        ap wrap64 (times k b) ∙ stored (k * b) (omega arith) in
      let left : wrap64 (pos w -ℤ wrap64 (pos k *ℤ pos b)) ≡ pos (w - k * b) =
        ap (λ x. wrap64 (pos w -ℤ x)) taken
        ∙ ap wrap64 (less w (k * b) h)
        ∙ stored (w - k * b) (omega arith) in
      ap (λ s. minimum s (wrap64 (pos w -ℤ wrap64 (pos k *ℤ s)))) size ∙ ap (minimum (pos b)) left

  place_lem :
      (i : ℕ) → (batch_of (pos u) (pos i) ≡ pos (i / b)) × (user_of (pos u) (pos i) ≡ pos (i % b))
  unfolding batch_of user_of quotient remainder
  place_lem i = (ap (quotient (pos i)) size, ap (remainder (pos i)) size)

-- What the call of index `i` reads and uses up.
pub record InPlace (users writes i : ℤ) : Type 0 where
  pub batch_low : pos 0 ≤ℤ batch_of users i
  pub batch_high : batch_of users i <ℤ batch_count users writes
  pub user_low : pos 0 ≤ℤ user_of users i
  pub user_high : user_of users i <ℤ users
  pub in_stock : user_of users i <ℤ batch_stock users writes (batch_of users i)

size_lem : (u : ℕ) → 1 ≤ u → (b : ℕ) × (batch_size (pos u) ≡ pos b) × (1 ≤ b) × (b ≤ 100) × (b ≤ u)
unfolding batch_size
size_lem u h = elim (Bool-cases (leb u 100)) [
  | inl few ↦ (u, ground arith, h, ground arith, omega arith)
  | inr many ↦ (100, ground arith, omega arith, omega arith, ground arith)
]

in_place : (u w i : ℕ) → 1 ≤ u → w + 100 < 2 ^ 63 → i < w → InPlace (pos u) (pos w) (pos i)
in_place u w i some_user fits small =
    let (b, size, low, high, most) = size_lem u some_user in
    let (batch, user) = place_lem u w b low high fits size i in
    let whole = div-mul-le_self i b in
    let count = count_lem u w b low high fits size in
    let stock =
      ap (batch_stock (pos u) (pos w)) batch
      ∙ stock_lem u w b low high fits size (i / b) (omega (arith, whole)) in
    let (own, left) = remainder_lt i b w low small in
    let before = quotient_lt i b w low small in
    record {
      batch_low = rw batch (omega arith);
      batch_high = rw (batch, count) (omega (arith, before));
      user_low = rw user (omega arith);
      user_high = rw user (omega (arith, own, most));
      in_stock = rw (user, stock) (ground (arith, own, left));
    }

-- With flags that are not refused and fewer than 2 ^ 63 - 100 orders, each valid order's call finds its
-- batch among the activities and its user among the tokens, and is one of as many calls as its
-- activity has stock.
pub call_bounds :
    (f : Flags) (i : ℤ)
    → is_invalid f ≡ false
    → f.writes +ℤ pos 100 <ℤ pos (2 ^ 63)
    → pos 0 ≤ℤ i
    → i <ℤ f.writes
    → InPlace f.users f.writes i
unfolding is_invalid
call_bounds f i valid fits low high =
    by_sign f.users f.writes i (ground arith) (grind (int_laws, fits)) low high
  where
    by_sign :
        (u w i : ℤ) → pos 1 ≤ℤ u → w <ℤ pos (2 ^ 63 - 100) → pos 0 ≤ℤ i → i <ℤ w → InPlace u w i
    by_sign (pos u) (pos w) (pos i) some_user fits low high =
        in_place u w i (omega arith) (omega arith) (omega arith)
    by_sign (negsuc u) w i some_user fits low high = absurd (omega arith)
    by_sign (pos u) w (negsuc i) some_user fits low high = absurd (omega arith)
    by_sign (pos u) (negsuc w) (pos i) some_user fits low high = absurd (omega arith)
