-- ===== src/Orders/Effect/Charged.antt =====
-- The price of a cart and the discount of its coupon in internal/service/order.go: what the loop of
-- CheckoutCart adds up, and what applyCoupon gives.
use go_order_lab.Prelude.{
  ℕ, ◌≡◌, refl, ap, ◌∙◌, sym, Option, none, some, List, [], ◌∷◌, ok, ℤ, pos, ◌+ℤ◌, ◌-ℤ◌, ◌*ℤ◌,
  wrap64, leb_ℤ, ltb_ℤ, Action, arith, Result-cases, Bool-cases, inl, inr, ◌>>=◌, ◌==◌, ==_iff,
}
use go_order_lab.Store.Rows.{has_id, find_first, find_first-holds, upsert, stamp}
use go_order_lab.Model.{Product, product_columns, CartItem}
use go_order_lab.Env.{Env, World, put_products}
use go_order_lab.Orders.Checkout.{take_item, take_items}

-- A bind that succeeds has succeeded on both sides.
pub bind_ok :
    {S A B : Type 0} (m : Action S A) (f : A → Action S B) (s : S) (b : B)
    → ((m >>= f) s).0 ≡ ok b
    → (a : A) × ((m s).0 ≡ ok a) × ((m >>= f) s ≡ f a (m s).1)
bind_ok m f s b h = elim (Result-cases (m s).0) [
  | inr (x, e) ↦ absurd (ground arith)
  | inl (a, e) ↦ (a, e, rw (◌>>=◌, e) refl)
]

-- The price of the product of a key.
abbrev pub price_of : Option Product → ℤ
price_of none = pos 0
price_of (some p) = p.price

abbrev pub price_at : List Product → ℕ → ℤ
price_at ps k = price_of (find_first (has_id product_columns k) ps)

-- The price of a cart, in 64 bits, on top of `amount`.
unfoldable pub cart_price : List Product → List CartItem → ℤ → ℤ
cart_price ps [] amount = amount
cart_price ps (i ∷ is) amount =
    cart_price ps is (wrap64 (amount +ℤ wrap64 (price_at ps i.product_id *ℤ i.quantity)))

cart_price_same :
    (ps qs : List Product) (is : List CartItem) (amount : ℤ)
    → ((k : ℕ) → price_at qs k ≡ price_at ps k)
    → cart_price qs is amount ≡ cart_price ps is amount
unfolding cart_price
cart_price_same ps qs [] amount same = refl
cart_price_same ps qs (i ∷ is) amount same =
    ap (λ p. cart_price qs is (wrap64 (amount +ℤ wrap64 (p *ℤ i.quantity)))) (same i.product_id)
    ∙ cart_price_same ps qs is _ same

price_at-upsert :
    (ps : List Product) (r r' : Product) (j k : ℕ)
    → find_first (has_id product_columns j) ps ≡ some r
    → r'.id ≡ r.id
    → r'.price ≡ r.price
    → price_at (upsert product_columns r' ps) k ≡ price_at ps k
price_at-upsert [] r r' j k h own same = cc
price_at-upsert (p ∷ ps) r r' j k h own same = elim (Bool-cases (p.id == j)) [
  | inl hit ↦
      (let here : p ≡ r = ground arith in
        let id : p.id ≡ r'.id = ap (λ x. x.id) here ∙ sym own in
        let price : p.price ≡ r'.price = ap (λ x. x.price) here ∙ sym same in
        ground (arith, ==_iff p.id r'.id, ==_iff p.id k, ==_iff r'.id k))
  | inr miss ↦
      (let there : find_first (has_id product_columns j) ps ≡ some r = ground arith in
        let found = find_first-holds (has_id product_columns j) ps r there in
        let rest = price_at-upsert ps r r' j k there own same in
        ground (arith, ==_iff p.id r'.id, ==_iff p.id j, ==_iff r.id j))
]

module _ (E : Env) where
  abbrev products_of : World E → List Product
  products_of w = E.products.rows w.db.products

  -- What the loop over a cart leaves of a world: only the products' stock is another.
  pub record Taken (w w' : World E) : Type 0 where
    pub products : E.products.State
    pub rest : w' ≡ put_products E products w
    pub prices : (k : ℕ) → price_at (E.products.rows products) k ≡ price_at (products_of w) k

  take_item_lem :
      (item : CartItem) (amount : ℤ) (w : World E) (b : ℤ)
      → (take_item E item amount w).0 ≡ ok b
      → Taken w (take_item E item amount w).1
        × (b
            ≡ wrap64 (amount +ℤ wrap64 (price_at (products_of w) item.product_id *ℤ item.quantity)))
  unfolding take_item
  take_item_lem item amount w b h = elim (Bool-cases (leb_ℤ item.quantity (pos 0))) [
    | inl bad ↦ absurd (ground arith)
    | inr wanted ↦
        elim (Result-cases
          (E.products.first (has_id product_columns item.product_id) w.db.products)) [
            | inr (e, missing) ↦ absurd (ground arith)
            | inl (p, found) ↦ elim (Bool-cases (ltb_ℤ p.stock item.quantity)) [
              | inl few ↦ absurd (ground arith)
              | inr enough ↦
                  (let p' : Product = record p { stock = wrap64 (p.stock -ℤ item.quantity) } in
                    elim (Result-cases (E.products.save p' w.db.products)) [
                      | inr (e, unsaved) ↦ absurd (ground arith)
                      | inl ((u, s), saved) ↦
                          (let first =
                              E.products.first_ok (has_id product_columns item.product_id)
                                w.db.products p found in
                            let rows = E.products.save_ok p' w.db.products s saved in
                            let price : price_at (products_of w) item.product_id ≡ p.price =
                              ap price_of first in
                            let sum : wrap64 (amount +ℤ wrap64 (p.price *ℤ item.quantity)) ≡ b =
                              ground arith in
                            (
                              record {
                                products = s;
                                rest = ground arith;
                                prices = λ k.
                                    ap (λ ps. price_at ps k) rows
                                    ∙ price_at-upsert (products_of w) p
                                        (stamp product_columns (E.products.clock w.db.products) p')
                                        item.product_id k first refl refl;
                              },
                              sym sum
                                  ∙ ap (λ x. wrap64 (amount +ℤ wrap64 (x *ℤ item.quantity)))
                                      (sym price),
                            ))
                    ])
            ]
          ]
  ]

  abbrev pub items_of : List (CartItem × Product) → List CartItem
  items_of [] = []
  items_of ((i, p) ∷ is) = i ∷ items_of is

  pub take_items_lem :
      (items : List (CartItem × Product)) (amount : ℤ) (w : World E) (b : ℤ)
      → (take_items E items amount w).0 ≡ ok b
      → Taken w (take_items E items amount w).1
        × (b ≡ cart_price (products_of w) (items_of items) amount)
  unfolding take_items cart_price
  take_items_lem [] amount w b h =
      (record { products = w.db.products; rest = refl; prices = λ k. refl }, ground arith)
  take_items_lem ((item, p) ∷ items) amount w b h =
      let (next, done, q) = bind_ok (take_item E item amount) (take_items E items) w b h in
      let w' = (take_item E item amount w).1 in
      let (one, sum) = take_item_lem item amount w next done in
      let (more, total) = take_items_lem items next w' b (ap (λ m. m.0) (sym q) ∙ h) in
      let states : w'.db.products ≡ one.products = ap (λ v. v.db.products) one.rest in
      let rows = ap E.products.rows states in
      (
        record {
          products = more.products;
          rest = ap (λ m. m.1) q ∙ more.rest ∙ ap (put_products E more.products) one.rest;
          prices = λ k. more.prices k ∙ ap (λ ps. price_at ps k) rows ∙ one.prices k;
        },
        total
            ∙ ap (λ ps. cart_price ps (items_of items) next) rows
            ∙ cart_price_same (products_of w) (E.products.rows one.products) (items_of items) next
                one.prices
            ∙ ap (cart_price (products_of w) (items_of items)) sum,
      )
