-- ===== src/Orders/Effect/Sold.antt =====
-- The stock of the products that CheckoutCart of internal/service/order.go sells.
use go_order_lab.Prelude.{
  ℕ, ◌^◌, ◌≡◌, false, Option, none, some, List, [], ◌∷◌, ℤ, pos, ◌≤ℤ◌, ◌<ℤ◌, ◌+ℤ◌, ◌-ℤ◌, wrap64,
  wrap64_id, eq_of_parts, int_laws, leb_ℤ, ltb_ℤ, arith, Bool-cases, inl, inr, ◌==◌, ==_iff,
  if◌then◌else◌,
}
use go_order_lab.Store.Rows.{has_id, find_first, find_first-holds, upsert}
use go_order_lab.Model.{Product, product_columns, CartItem}

abbrev pub stock_of : Option Product → ℤ
stock_of none = pos 0
stock_of (some p) = p.stock

abbrev pub stock_at : List Product → ℕ → ℤ
stock_at ps k = stock_of (find_first (has_id product_columns k) ps)

-- The units of a product in a cart.
unfoldable pub units : ℕ → List CartItem → ℤ
units k [] = pos 0
units k (i ∷ is) = (if i.product_id == k then i.quantity else pos 0) +ℤ units k is

abbrev pub InRange : List Product → Type 0
InRange ps = (k : ℕ) → (pos 0 ≤ℤ stock_at ps k) × (stock_at ps k <ℤ pos (2 ^ 63))

-- The units that are gone are those of the cart, and no stock is negative.
pub record Sells (ps qs : List Product) (is : List CartItem) : Type 0 where
  pub sold : (k : ℕ) → stock_at qs k +ℤ units k is ≡ stock_at ps k
  pub range : InRange qs

pub stock_at-upsert_own :
    (ps : List Product) (r r' : Product) (j : ℕ)
    → find_first (has_id product_columns j) ps ≡ some r
    → r'.id ≡ r.id
    → stock_at (upsert product_columns r' ps) j ≡ r'.stock
stock_at-upsert_own [] r r' j h own = cc
stock_at-upsert_own (p ∷ ps) r r' j h own =
    let found = find_first-holds (has_id product_columns j) (p ∷ ps) r h in
    elim (Bool-cases (p.id == j)) [
      | inl hit ↦
          (let here : p ≡ r = ground arith in
            ground (arith, ==_iff p.id r'.id, ==_iff r'.id j, ==_iff r.id j))
      | inr miss ↦
          (let there : find_first (has_id product_columns j) ps ≡ some r = ground arith in
            let rest = stock_at-upsert_own ps r r' j there own in
            ground (arith, ==_iff p.id r'.id, ==_iff p.id j, ==_iff r.id j))
    ]

pub stock_at-upsert_other :
    (ps : List Product) (r : Product) (k : ℕ)
    → (r.id == k) ≡ false
    → stock_at (upsert product_columns r ps) k ≡ stock_at ps k
stock_at-upsert_other [] r k other = ground arith
stock_at-upsert_other (p ∷ ps) r k other =
    let rest = stock_at-upsert_other ps r k other in
    ground (arith, ==_iff p.id r.id, ==_iff p.id k, ==_iff r.id k)

-- An item's units come off a stock that has them, without a wrap-around.
pub taken_off :
    (a q : ℤ)
    → pos 0 ≤ℤ a
    → a <ℤ pos (2 ^ 63)
    → leb_ℤ q (pos 0) ≡ false
    → ltb_ℤ a q ≡ false
    → (wrap64 (a -ℤ q) ≡ a -ℤ q) × (pos 0 ≤ℤ a -ℤ q) × (a -ℤ q <ℤ pos (2 ^ 63))
taken_off a q low high some_units enough =
    (wrap64_id (a -ℤ q) (grind (int_laws), grind (int_laws)), grind (int_laws), grind (int_laws))

pub given_back : (a q : ℤ) → a -ℤ q +ℤ (q +ℤ pos 0) ≡ a
given_back a q = eq_of_parts (a -ℤ q +ℤ (q +ℤ pos 0)) a (omega int_laws)

pub untouched : (a : ℤ) → a +ℤ (pos 0 +ℤ pos 0) ≡ a
untouched a = eq_of_parts (a +ℤ (pos 0 +ℤ pos 0)) a (omega int_laws)

pub both_taken : (a b c x y : ℤ) → b +ℤ (x +ℤ pos 0) ≡ a → c +ℤ y ≡ b → c +ℤ (x +ℤ y) ≡ a
both_taken a b c x y h k = eq_of_parts (c +ℤ (x +ℤ y)) a (grind (int_laws, h, k))

pub nothing_taken : (a : ℤ) → a +ℤ pos 0 ≡ a
nothing_taken a = eq_of_parts (a +ℤ pos 0) a (omega int_laws)
