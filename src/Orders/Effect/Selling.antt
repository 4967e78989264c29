-- ===== src/Orders/Effect/Selling.antt =====
-- The loop of CheckoutCart of internal/service/order.go over the cart sells what is in it.
use go_order_lab.Prelude.{
  ℕ, ◌^◌, ◌≡◌, refl, subst, ap, ◌∙◌, sym, false, some, List, [], ◌∷◌, ok, ℤ, pos, ◌≤ℤ◌, ◌<ℤ◌, ◌+ℤ◌,
  ◌-ℤ◌, wrap64, leb_ℤ, ltb_ℤ, arith, Result-cases, Bool-cases, inl, inr, ◌==◌, ==_iff,
  if◌then◌else◌,
}
use go_order_lab.Store.Rows.{has_id, find_first, find_first-holds, upsert, stamp}
use go_order_lab.Model.{Product, product_columns, CartItem}
use go_order_lab.Env.{Env, World}
use go_order_lab.Orders.Checkout.{take_item, take_items}
use go_order_lab.Orders.Effect.Charged.{bind_ok, items_of}
use go_order_lab.Orders.Effect.Sold.{
  stock_of, stock_at, units, InRange, Sells, stock_at-upsert_own, stock_at-upsert_other, taken_off,
  given_back, untouched, both_taken, nothing_taken,
}

module _ (E : Env) where
  abbrev pub products_of : World E → List Product
  products_of w = E.products.rows w.db.products

  -- The row of a product with fewer units sells them.
  save-Sells :
      (item : CartItem) (p : Product) (ps : List Product) (now : ℤ)
      → InRange ps
      → leb_ℤ item.quantity (pos 0) ≡ false
      → ltb_ℤ p.stock item.quantity ≡ false
      → find_first (has_id product_columns item.product_id) ps ≡ some p
      → Sells ps
          (upsert product_columns
            (stamp product_columns now (record p { stock = wrap64 (p.stock -ℤ item.quantity) }))
            ps)
          (item ∷ [])
  unfolding units
  save-Sells item p ps now range wanted enough first =
      let r = stamp product_columns now (record p { stock = wrap64 (p.stock -ℤ item.quantity) }) in
      let before : stock_at ps item.product_id ≡ p.stock = ap stock_of first in
      let key =
        (==_iff p.id item.product_id).0
          (find_first-holds (has_id product_columns item.product_id) ps p first) in
      let low = subst (λ n. pos 0 ≤ℤ n) before (range item.product_id).0 in
      let high = subst (λ n. n <ℤ pos (2 ^ 63)) before (range item.product_id).1 in
      let (whole, low', high') = taken_off p.stock item.quantity low high wanted enough in
      let after : stock_at (upsert product_columns r ps) item.product_id
          ≡ p.stock -ℤ item.quantity =
        stock_at-upsert_own ps p r item.product_id first refl ∙ whole in
      let other : (k : ℕ)
          → (item.product_id == k) ≡ false
          → stock_at (upsert product_columns r ps) k ≡ stock_at ps k =
        λ k apart. stock_at-upsert_other ps r k (ap (λ i. i == k) key ∙ apart) in
      record {
        sold = λ k. elim (Bool-cases (item.product_id == k)) [
          | inr apart ↦ rw (apart, other k apart) (untouched (stock_at ps k))
          | inl own ↦
              (let same = (==_iff item.product_id k).0 own in
                rw own (
                  subst
                    (λ j.
                      stock_at (upsert product_columns r ps) j +ℤ (item.quantity +ℤ pos 0)
                      ≡ stock_at ps j)
                    same
                    (ap (λ n. n +ℤ (item.quantity +ℤ pos 0)) after
                      ∙ given_back p.stock item.quantity
                      ∙ sym before)))
        ];
        range = λ k. elim (Bool-cases (item.product_id == k)) [
          | inr apart ↦
              subst (λ n. (pos 0 ≤ℤ n) × (n <ℤ pos (2 ^ 63))) (sym (other k apart)) (range k)
          | inl own ↦
              subst (λ n. (pos 0 ≤ℤ n) × (n <ℤ pos (2 ^ 63)))
                (sym after
                  ∙ ap (stock_at (upsert product_columns r ps)) ((==_iff item.product_id k).0 own))
                (low', high')
        ];
      }

  take_item-Sells :
      (item : CartItem) (amount : ℤ) (w : World E) (b : ℤ)
      → InRange (products_of w)
      → (take_item E item amount w).0 ≡ ok b
      → Sells (products_of w) (products_of (take_item E item amount w).1) (item ∷ [])
  unfolding take_item
  take_item-Sells item amount w b range h = elim (Bool-cases (leb_ℤ item.quantity (pos 0))) [
    | inl bad ↦ absurd (ground arith)
    | inr wanted ↦
        elim (Result-cases
          (E.products.first (has_id product_columns item.product_id) w.db.products)) [
            | inr (e, missing) ↦ absurd (ground arith)
            | inl (p, found) ↦ elim (Bool-cases (ltb_ℤ p.stock item.quantity)) [
              | inl few ↦ absurd (ground arith)
              | inr enough ↦
                  (let p' : Product = record p { stock = wrap64 (p.stock -ℤ item.quantity) } in
                    elim (Result-cases (E.products.save p' w.db.products)) [
                      | inr (e, unsaved) ↦ absurd (ground arith)
                      | inl ((u, s), saved) ↦
                          (let last : (take_item E item amount w).1.db.products ≡ s =
                              ground arith in
                            let rows =
                              ap E.products.rows last
                              ∙ E.products.save_ok p' w.db.products s saved in
                            let first =
                              E.products.first_ok (has_id product_columns item.product_id)
                                w.db.products p found in
                            subst (λ qs. Sells (products_of w) qs (item ∷ [])) (sym rows)
                              (save-Sells item p (products_of w) (E.products.clock w.db.products)
                                range wanted enough first))
                    ])
            ]
          ]
  ]

  pub take_items-Sells :
      (items : List (CartItem × Product)) (amount : ℤ) (w : World E) (b : ℤ)
      → InRange (products_of w)
      → (take_items E items amount w).0 ≡ ok b
      → Sells (products_of w) (products_of (take_items E items amount w).1) (items_of E items)
  unfolding take_items units
  take_items-Sells [] amount w b range h = record {
    sold = λ k. nothing_taken (stock_at (products_of w) k);
    range = range;
  }
  take_items-Sells ((item, p) ∷ items) amount w b range h =
      let (next, done, q) = bind_ok (take_item E item amount) (take_items E items) w b h in
      let w' = (take_item E item amount w).1 in
      let one = take_item-Sells item amount w next range done in
      let more = take_items-Sells items next w' b one.range (ap (λ m. m.0) (sym q) ∙ h) in
      subst (λ m. Sells (products_of w) (products_of m.1) (item ∷ items_of E items)) (sym q)
        (record {
          sold = λ k.
              both_taken (stock_at (products_of w) k) (stock_at (products_of w') k)
                (stock_at (products_of (take_items E items next w').1) k)
                (if item.product_id == k then item.quantity else pos 0) (units k (items_of E items))
                (one.sold k) (more.sold k);
          range = more.range;
        })
